-- ===== src/Mux/Buffer.antt =====
-- mux/util_buffer.go. The linked list from `head` to `tail` is the data of the first link and those
-- of the links behind it: `head` and `tail` are the same link if there is none behind. The lock is
-- held throughout but for the wait in Read, which `Blocks` stands for.
pub mod Queue
mod Tests
use qtalk_go.Base.{
  ℕ, zero, suc, ◌+◌, ◌-◌, ◌*◌, Bool, true, false, List, [], ◌∷◌, ◌++◌, Option, none, some, Error,
  eof, ltb, ◌==◌, if◌then◌else◌, length, take, drop, min,
}

pub record Buffer : Type 0 where
  pub head : List ℕ
  pub behind : List (List ℕ)
  pub closed : Bool

unfoldable pub new_buffer : Buffer
new_buffer = record { head = []; behind = []; closed = false }

unfoldable pub write : List ℕ → Buffer → Buffer
write buf b = record b { behind = b.behind ++ buf ∷ [] }

-- The method `eof`.
unfoldable pub close : Buffer → Buffer
close b = record b { closed = true }

-- What Read has copied so far and has still room for, with the buffer.
pub record Progress : Type 0 where
  pub got : List ℕ
  pub room : ℕ
  pub buffer : Buffer

-- What becomes of a Read: it returns, it waits for the producer, or it makes another round.
pub data Outcome : Type 0 where
  returned : List ℕ → Option Error → Buffer → Outcome
  blocked : Buffer → Outcome
  again : Progress → Outcome

-- `copy(buf, b.head.buf)` and the two slices that are left.
abbrev copied : Progress → Progress
copied p =
    let n = min p.room (length p.buffer.head) in
    record {
      got = p.got ++ take n p.buffer.head;
      room = p.room - n;
      buffer = record p.buffer { head = drop n p.buffer.head };
    }

-- The end of a round in which there was no data: what was copied is returned; else the end of the
-- stream; else Read waits.
abbrev at_end : Progress → Outcome
at_end p =
    if ltb 0 (length p.got)
    then returned p.got none p.buffer
    else if p.buffer.closed
    then returned p.got (some eof) p.buffer
    else blocked p.buffer

abbrev advance : Progress → List (List ℕ) → Outcome
advance p [] = at_end p
advance p (next ∷ later) =
    again (record p { buffer = record p.buffer { head = next; behind = later } })

-- One round of the loop in Read.
unfoldable pub round : Progress → Outcome
round p =
    if p.room == 0
    then returned p.got none p.buffer
    else if ltb 0 (length p.buffer.head)
    then again (copied p)
    else advance p p.buffer.behind

abbrev pub continue : (Progress → Outcome) → Outcome → Outcome
continue loop (returned got e b) = returned got e b
continue loop (blocked b) = blocked b
continue loop (again p) = loop p

-- The loop. `again` is left only if the fuel runs out.
unfoldable pub read_loop : ℕ → Progress → Outcome
read_loop zero p = again p
read_loop (suc fuel) p = continue (read_loop fuel) (round p)

-- Each link takes two rounds at most, one to make it the head and one to copy it; two more end.
unfoldable pub read : ℕ → Buffer → Outcome
unfolding read_loop
read room b = read_loop (2 * length b.behind + 3) (record { got = []; room = room; buffer = b })
