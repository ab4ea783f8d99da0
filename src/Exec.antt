-- ===== src/Exec.antt =====
-- The command dispatcher (src/exec.c), as it is built without the extensions of `configure`: no
-- registers, no macros and no file globs.
--
-- `sp` says whether a script is being run. The two options of POSIX behaviour are one flag, since
-- every test is for both.
pub mod Commands
pub mod Dispatch
pub mod Kept
pub mod Ready
pub mod Deletes
pub mod Tests
use ed.Common.{
  ℕ, suc, ◌+◌, Bool, true, false, not, ◌&&◌, ◌||◌, Option, none, some, List, [], ◌∷◌, ltb, leb,
  ◌==◌, if◌then◌else◌,
}
use ed.Common.Int.{pos, pos_part}
use ed.Address
use ed.Address.{Env, Parse, AddressError, skip_whitespace}
use ed.Address.Range.{Region, address_range, next_address}
use ed.Edit
use ed.Edit.{Buffer, EdError, Outcome}
use ed.Edit.Marks.{get_marked_node_address}
use ed.Edit.Queue.{reset_undo_queue}

-- The print request of a command suffix: PRNT, LIST and NMBR.
pub record Print : Type 0 where
  pub prnt : Bool
  pub list : Bool
  pub nmbr : Bool

-- The region of a command. `address_range` returns no negative address.
pub record Extent : Type 0 where
  pub start : ℕ
  pub end : ℕ
  pub addrs : ℕ

pub record Options : Type 0 where
  pub traditional : Bool
  pub scripted : Bool
  pub prompt : Bool

-- `search` finds the lines that a pattern matches, as in `Address.Env`.
pub record Editor : Type 0 where
  pub buffer : Buffer
  pub input : List ℕ
  pub region : Extent
  pub dio_f : Print
  pub options : Options
  pub sp : Bool
  pub search : ℕ → List ℕ → Option (ℕ → Bool) × List ℕ

pub data Message : Type 0 where
  out_of_range invalid_range suffix_unexpected address_unexpected invalid_destination
        destination_required invalid_address unknown_command prefix_unexpected :
      Message
  of_buffer : EdError → Message
  of_address : AddressError → Message

-- The status of a command: a result of the type, ERR with its message, or a loop that the model
-- has no fuel for.
pub data CmdStatus (A : Type 0) : Type 0 where
  ok : A → Editor → CmdStatus A
  err : Message → Editor → CmdStatus A
  out_of_fuel : CmdStatus A

infixl 5 ◌>>=◌
abbrev pub ◌>>=◌ : {A B : Type 0} → CmdStatus A → (A → Editor → CmdStatus B) → CmdStatus B
ok a e >>= f = f a e
err m e >>= f = err m e
out_of_fuel >>= f = out_of_fuel

-- What a command returns: its print request, EOF, or EMOD.
pub data Reply : Type 0 where
  request : Print → Reply
  eof emod : Reply

abbrev pub is_flag : ℕ → Bool
is_flag c = (c == b'p') || (c == b'l') || (c == b'n')

abbrev pub with_flag : ℕ → Print → Print
with_flag c io_f = record {
  prnt = (c == b'p') || io_f.prnt;
  list = (c == b'l') || io_f.list;
  nmbr = (c == b'n') || io_f.nmbr;
}

-- The loop of COMMAND_SUFFIX: whether it ends at a newline, with the flags and the input left.
unfoldable pub suffix_loop : List ℕ → Print → Bool × Print × List ℕ
suffix_loop [] io_f = (false, io_f, [])
suffix_loop (c ∷ s) io_f =
    let rest = suffix_loop s (with_flag c io_f) in
    if c == 10 then (true, io_f, s) else if is_flag c then rest else (false, io_f, c ∷ s)

-- COMMAND_SUFFIX (ed->display->dio_f, ed)
unfoldable pub command_suffix : Editor → CmdStatus (Unit {0})
unfolding suffix_loop
command_suffix e =
    let (ends, io_f, s) = suffix_loop e.input e.dio_f in
    let e₁ = record e { input = s; dio_f = io_f } in
    if ends then ok tt e₁ else err suffix_unexpected e₁

-- is_valid_range
unfoldable pub is_valid_range : ℕ → ℕ → Editor → CmdStatus (Unit {0})
is_valid_range from to e =
    let r : Extent =
      if e.region.addrs == 0 then record { start = from; end = to; addrs = 0 } else e.region in
    let e₁ = record e { region = r } in
    let lines = e.buffer.state.lines in
    if ltb r.start 1 || ltb lines r.start || ltb r.end 1 || ltb lines r.end
    then err out_of_range e₁
    else if ltb r.end r.start
    then err invalid_range e₁
    else ok tt e₁

abbrev pub dot : Editor → ℕ
dot e = e.buffer.state.dot

abbrev pub with_buffer : Editor → Buffer → Editor
with_buffer e b = record e { buffer = b }

-- The buffer operations as steps of a command.
abbrev pub run : {A : Type 0} → Editor → Outcome A → CmdStatus A
run e (Edit.ok a b) = ok a (with_buffer e b)
run e (Edit.err m b) = err (of_buffer m) (with_buffer e b)

-- `if (!(ed->exec->global || ed->core->sp)) reset_undo_queue (ed);`
unfoldable pub reset_unless_nested : Editor → CmdStatus (Unit {0})
reset_unless_nested e =
    if e.buffer.global || e.sp
    then ok tt e
    else elim (reset_undo_queue e.buffer) [ none ↦ out_of_fuel | some b ↦ ok tt (with_buffer e b) ]

-- What addresses refer to.
abbrev pub marked : Buffer → ℕ → Option ℕ
marked b c = elim (get_marked_node_address c b) [ some (Edit.ok addr _) ↦ some addr | _ ↦ none ]

abbrev pub address_env : Editor → Env
address_env e = record {
  lines = e.buffer.state.lines;
  marked = marked e.buffer;
  traditional = e.options.traditional;
  search = e.search;
}

-- The command buffer and the current line, as an address is read.
abbrev pub at_parse : Editor → Parse → Editor
at_parse e p = record e {
  input = p.input;
  buffer = record (e.buffer) { state = record (e.buffer.state) { dot = pos_part p.dot } };
}

-- DESTINATION_ADDRESS: it restores the ends of the region. After an error of an address the model
-- keeps the region; the source has counted addresses in it, which nothing reads before the next
-- `address_range` begins at 0.
unfoldable pub destination_address : Editor → CmdStatus ℕ
destination_address e =
    elim (address_range (address_env e) (record { input = e.input; dot = pos (dot e) })) [
      | Address.out_of_fuel ↦ out_of_fuel
      | Address.err m p ↦ err (of_address m) (at_parse e p)
      | Address.ok r p ↦
          let addr = pos_part r.end in
          let given : Extent = record { start = pos_part r.start; end = addr; addrs = r.addrs } in
          let e₁ = record (at_parse e p) { region = given } in
          if e.options.traditional && (r.addrs == 0)
          then err destination_required e₁
          else if ltb e.buffer.state.lines addr
          then err out_of_range e₁
          else ok addr (record e₁ {
            region = record { start = e.region.start; end = e.region.end; addrs = r.addrs };
          })
    ]
