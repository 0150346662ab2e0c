-- ===== src/Lib.antt =====
-- A verification library for ProfiLua, a Lua interpreter for the circuit simulator Profilab with
-- libraries for MIDI, serial ports and bit operations.
--
-- Base holds the shared helpers: tests, lists and integers on the native numbers, and runs of C code,
-- which return, raise a Lua error, reach undefined behaviour or use up the fuel of a loop. Lua is the
-- boundary to the Lua library: its values, its numbers (finite doubles) and the replies of C functions.
-- Heap is the heap of one type of linked nodes, and what a chain of nodes holds.
--
-- Midi is src/profimidi.c. State has its structs (tMidiOutDev, tMidiInEvent, tMidiInDev), its two list
-- heads and the functions of the MIDI driver, which are a parameter. Chain has the loops on a list of
-- devices, that the code has once for the outputs and once for the inputs: GetMidiOutEntry, AddMidiOut
-- and the unlinking in RemoveMidiOut. Devices has AddMidiInEvent, RemoveMidiInEvent, RemoveMidiOut and
-- RemoveMidiIn, Wire has MidiSend and the callback MidiReceive, and Api the functions that scripts
-- call: plOpenMidiOut, plOpenMidiIn, plCloseMidiOut, plCloseMidiIn, plPlayNote, plCountDevices,
-- plGetMidiOutName, plGetMidiInName and plGetEvent. View says what the pointers hold, Queue and Close
-- are about the operations at that level, Spec is the abstract state (for each number the handle of the
-- open device and its events) and relates each call to a change of it, and Session runs sequences of
-- calls by scripts and callbacks by the driver. Queue/Interrupt lets the callback run in the middle of
-- RemoveMidiInEvent, which is cut in two for it (find_last and unchain), after any round of its loop;
-- get_event_by is plGetEvent with that call left open, and Spec/Interrupted is about it. In the same
-- way Interrupt/Unlinking and Interrupt/Closing let it run in the two loops of RemoveMidiIn,
-- close_midi_in_by is plCloseMidiIn with that call left open, and Spec/Closing is about it.
-- Interrupt/Adding lets the callback run in the middle of AddMidiIn.
--
-- Serial is src/profiserial.c. Ports is the serial library's interface, a parameter, and the conversion
-- of arguments by lua_tonumber; Send has plSerialSend with its loops over a string and a table, and Api
-- the other plSerial functions. Payload says which bytes reach the port. The loop over a table needs
-- fuel above the number of its entries.
--
-- Sim is src/profilua.c. State has its globals and the arrays of the simulator, and the script with the
-- Lua library as a parameter: it acts on a world, the Lua heap with what the libraries keep in C
-- globals, of which the field idle keeps what a closed Lua state has left. Vm has the operations of the
-- Lua stack, on which a pop of nothing is undefined. Script has OpenLuaScript, CloseLuaScript,
-- CNumInputsEx, CNumOutputsEx, GetInputName and GetOutputName, Outputs the loops over the pins, and
-- Calculate CCalculateEx, CSimStartFlaw, CSimStart and CSimStop. An error that a script raises ends the
-- host, as there is no protected call. Keeps and Console follow the flag for the debug console through
-- each of them, and Host through sequences of the simulator's calls, where each step hands over its
-- arrays PInput and PString. Worlds has the ways in which the Lua library changes the world, and the
-- calls change it by these only. Results, Step, Names, Start, Stop and Pins are about scripts that
-- answer properly, Whole has the promises of such a script and whole simulations with it, one after
-- another, Latch is about the calls after an error, and Failures about scripts that answer otherwise
-- and about orders of calls that the code does not handle.
--
-- Console is src/proficonsole.c: the files fin, fout and ferr, which DebugConsoleOn opens and
-- DebugConsoleOff closes, and DebugLuaStack. Replay runs the calls that the host has logged in its
-- state against these files.
--
-- Libraries is src/profilualib.c and what scripts find under a name: the tables of functions and the
-- globals that luaopen_profilua, luaopen_profibit, luaopen_profimidi and luaopen_profiserial set, in
-- the order of luaL_openlibs in src/linit.c. Lua's registry of globals is an interface with laws.
-- Fields follows the functions and the globals through the openers, Constants compares the globals with
-- what the components take them for, and Loopback runs a script that calls the functions of proserial
-- by their names, on a port whose output is wired to its input. Messages does so with promidi, for a
-- device that the script opens and the messages that arrive there.
--
-- Program puts Sim and Midi together: steps of the simulator, a script that calls promidi, and messages
-- of the driver in any order. Midi/Fuel shows that more fuel changes no run that returns, so that these
-- steps need no common bound.
--
-- Bit is src/profibit.c. Sum has the addition in barg, by which a number becomes 32 bits, and Word barg
-- and the macros on 32-bit words, Api the functions that return a number, Print bit_tohex and
-- bit_tobin. Digits reads what they print with a strict reader, to which a digit is one of the expected
-- characters in the expected case, Shift is about bit_arshift, and Rotate about bit_rol and bit_ror,
-- and Range about the numbers that the functions return.
--
-- What is a parameter: the driver (any functions on any state), the results of malloc (NULL or an
-- address that holds no node), the conversions of Lua between numbers, strings and integers, Lua's
-- names of types, the text of %g, the keyboard, and whether _fdopen succeeds. A number outside the
-- range of a C type, whose conversion C leaves undefined, becomes a value that is a parameter in
-- plGetEvent and the functions of Serial; pin counts and file numbers are taken modulo 2 ^ 8. Loops run
-- on fuel: with lists of at most n cells, any fuel above n is enough, and every call adds at most one
-- cell to a list. Nodes of different struct types never share an address. In Session a callback runs
-- between two calls, inside RemoveMidiInEvent when a script calls plGetEvent, or inside RemoveMidiIn
-- when it calls plCloseMidiIn; the code has no lock, so that it could also run elsewhere.
--
-- Not modelled: the copy of Lua 5.1 itself, the serial library of BecauseHW, windows, and
-- dbgShowMidiInEventList, which prints and is never called.
mod Base
pub mod Lua
pub mod Heap
pub mod Midi
pub mod Serial
pub mod Sim
pub mod Bit
pub mod Console
pub mod Libraries
pub mod Program
