-- ===== src/Console.antt =====
-- src/proficonsole.c: the debug console, and the standard streams that are redirected to it.
pub mod Replay
pub mod Stack
mod Examples
use profi_lua.Base.{
  ◌>>=◌, ◌>>◌, Bool, true, false, Option, none, some, if◌then◌else◌, Cmd, pure, modify, crash, get,
}

pub data Stream : Type 0 where
  stdin stdout stderr : Stream

abbrev pub is_same : Stream → Stream → Bool
is_same Stream.stdin Stream.stdin = true
is_same Stream.stdout Stream.stdout = true
is_same Stream.stderr Stream.stderr = true
is_same _ _ = false

-- `fin`, `fout` and `ferr`, where `none` is NULL, which of the standard streams can be used, and
-- whether the process has a console.
pub record Console : Type 0 where
  pub fin : Option Stream
  pub fout : Option Stream
  pub ferr : Option Stream
  pub is_open : Stream → Bool
  pub console : Bool

abbrev pub set_open : Stream → Bool → Cmd Console (Unit {0})
set_open f b = modify λ c. record c { is_open = λ g. if is_same g f then b else c.is_open g }

-- `fflush(NULL)` flushes all streams.
abbrev pub flush : Option Stream → Cmd Console (Unit {0})
flush none = pure tt
flush (some f) = do c ← get; if c.is_open f then pure tt else crash

-- `fclose` of NULL, and of a stream that is closed, is undefined.
abbrev pub close : Option Stream → Cmd Console (Unit {0})
close none = crash
close (some f) = do c ← get; if c.is_open f then set_open f false else crash

-- BringWindowToTop(FindWindow(NULL,PROFICONSOLENAME)) changes neither the files nor the streams, and
-- nothing at all where there is no such window.
abbrev pub debug_console_top : Cmd Console (Unit {0})
debug_console_top = pure tt

unfoldable pub debug_console_off : Cmd Console (Unit {0})
debug_console_off = do
  c ← get
  flush c.fout
  close c.fout
  modify λ c. record c { fout = none }
  c ← get
  close c.fin
  modify λ c. record c { fin = none }
  c ← get
  flush c.ferr
  close c.ferr
  modify λ c. record c { ferr = none }
  modify λ c. record c { console = false }

-- `has_file` says for which handles `_open_osfhandle` and `_fdopen` give a FILE, and not NULL.
module _ (has_file : Stream → Bool) where
  -- *stdout = *f, and the same for the other streams.
  abbrev pub redirect : Stream → Cmd Console (Unit {0})
  redirect f = if has_file f then set_open f true else crash

  unfoldable pub debug_console_on : Cmd Console (Unit {0})
  debug_console_on = do
    modify λ c. record c { console = true }
    modify λ c. record c { fout = some Stream.stdout }
    redirect Stream.stdout
    modify λ c. record c { fin = some Stream.stdin }
    redirect Stream.stdin
    modify λ c. record c { ferr = some Stream.stderr }
    redirect Stream.stderr
