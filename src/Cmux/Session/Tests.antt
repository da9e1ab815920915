-- ===== src/Cmux/Session/Tests.antt =====
-- Runs of a session over frames of a simple format in place of CBOR.
use qtalk_go.Base.{
  drop-append, ℕ, ◌<◌, ◌≡◌, refl, ap, arith, Bool, true, false, List, [], ◌∷◌, ◌++◌, none, Error,
  Result, ok, err, eof, unexpected_eof, cancelled, flatten, inr, inl, length, take, drop, ltb,
  ltb→lt, Bool-cases, length-append, length-drop, ◌≤◌, if◌then◌else◌,
}
use qtalk_go.Frame.Encoder
use qtalk_go.Frame.Encoder.{Writer}
use qtalk_go.Frame.Decoder.{Reader}
use qtalk_go.Mux.Channel.{as_error}
use qtalk_go.Cmux.Channel.{Frame, Cbor, Channel, channel_open, channel_open_confirm, data_frame}
use qtalk_go.Cmux.Session.{Session, handled, stuck, new_session, fresh, dispatch, loop}
use qtalk_go.Cmux.Session.Calls.{open_start, open_finish, not_opened}
use qtalk_go.Cmux.Session.Loop.{Consumes, Stops, new_session_cbor-Stops}
use qtalk_go.Cmux.Session.Stalls.{waiting, asking, given_up, open-gives_up}
use qtalk_go.Cmux.Session.Transfer.{Carries, write_all, wire, HasGot, writes-got}

-- Four numbers and the payload, whose length is the last of these.
abbrev marshal : Frame → List ℕ
marshal f = f.type_of ∷ f.channel_id ∷ f.sender_id ∷ length f.payload ∷ f.payload

abbrev cut : Bool → ℕ → ℕ → ℕ → ℕ → List ℕ → Error → Result Frame × Reader
cut b t c s n bytes e = if b then (err unexpected_eof, record { rest = []; fault = e }) else (
  ok (record { type_of = t; channel_id = c; sender_id = s; payload = take n bytes }),
  record { rest = drop n bytes; fault = e },
)

abbrev part : ℕ → ℕ → ℕ → ℕ → List ℕ → Error → Result Frame × Reader
part t c s n bytes e = cut (ltb (length bytes) n) t c s n bytes e

abbrev unmarshal : List ℕ → Error → Result Frame × Reader
unmarshal (t ∷ c ∷ s ∷ n ∷ bytes) e = part t c s n bytes e
unmarshal _ e = (err e, record { rest = []; fault = e })

abbrev plain : Cbor
plain = record {
  encode = λ f w. let r = Encoder.write w.fault w.written (marshal f) in (as_error r.0, r.1);
  decode = λ r. unmarshal r.rest r.fault;
}

take-whole : (xs ys : List ℕ) → take (length xs) (xs ++ ys) ≡ xs
take-whole [] ys = refl
take-whole (x ∷ xs) ys = ap (λ (l : List ℕ). x ∷ l) (take-whole xs ys)

part-whole :
    (t c s : ℕ) (bytes more : List ℕ) (e : Error)
    → part t c s (length bytes) (bytes ++ more) e ≡ (
      ok (record { type_of = t; channel_id = c; sender_id = s; payload = bytes }),
      record { rest = more; fault = e },
    )
part-whole t c s bytes more e = elim (Bool-cases (ltb (length (bytes ++ more)) (length bytes))) [
  | inl short ↦ absurd (omega (arith, ltb→lt _ _ short, length-append bytes more))
  | inr enough ↦ rw (enough, take-whole bytes more, drop-append bytes more) refl
]

cut-shorter :
    (b : Bool) (t c s n : ℕ) (bytes : List ℕ) (e : Error) (f : Frame) (r : Reader)
    → cut b t c s n bytes e ≡ (ok f, r)
    → length r.rest ≤ length bytes
cut-shorter true t c s n bytes e f r d = absurd (cc)
cut-shorter false t c s n bytes e f r d =
    omega (arith, length-drop n bytes, ap (λ (x : Result Frame × Reader). length x.1.rest) d)

unmarshal-shorter :
    (bytes : List ℕ) (e : Error) (f : Frame) (r : Reader)
    → unmarshal bytes e ≡ (ok f, r)
    → length r.rest < length bytes
unmarshal-shorter [] e f r d = absurd (cc)
unmarshal-shorter (t ∷ []) e f r d = absurd (cc)
unmarshal-shorter (t ∷ c ∷ []) e f r d = absurd (cc)
unmarshal-shorter (t ∷ c ∷ s ∷ []) e f r d = absurd (cc)
unmarshal-shorter (t ∷ c ∷ s ∷ n ∷ bytes) e f r d =
    omega (arith, cut-shorter (ltb (length bytes) n) t c s n bytes e f r d)

plain-Carries : Carries plain
plain-Carries = record {
  marshal = marshal;
  encodes = λ f done. refl;
  decodes = λ f more e. part-whole f.type_of f.channel_id f.sender_id f.payload more e;
}

plain-Consumes : Consumes plain
plain-Consumes r r' f d = unmarshal-shorter r.rest r.fault f r' d

abbrev writer : Writer
writer = record { written = []; fault = none }

-- An open frame, data for the channel, and its close.
abbrev frames_in : Reader
frames_in = record {
  rest =
      marshal (record { type_of = channel_open; channel_id = 0; sender_id = 5; payload = [] })
      ++ marshal (data_frame 1 (7 ∷ 8 ∷ []));
  fault = eof;
}

new_session_cbor-Stops_example : Stops (loop plain 11 (λ n. true) (new_session writer frames_in))
new_session_cbor-Stops_example =
    new_session_cbor-Stops plain 11 (λ n. true) writer frames_in plain-Consumes (omega arith)

abbrev one_open : Session
one_open = record {
  chans = record { key = 1; value = 0 } ∷ [];
  chan_counter = 1;
  enc = writer;
  dec = record { rest = wire plain-Carries 1 ((7 ∷ 8 ∷ []) ∷ (9 ∷ []) ∷ []) ++ []; fault = eof };
  heap = fresh 1 ∷ [];
  inbox = [];
  error = none;
  close_ch = false;
}

abbrev answer : Frame
answer = record { type_of = channel_open_confirm; channel_id = 2; sender_id = 6; payload = [] }

open-gives_up_example :
    (open_start plain one_open ≡ (1, none, asking plain one_open))
    × ((open_finish true 1 (waiting one_open) (asking plain one_open)).0 ≡ not_opened cancelled)
    × ((s' : Session) × (dispatch plain true answer (given_up plain one_open) ≡ stuck s'))
open-gives_up_example = open-gives_up plain one_open answer true (refl, inl refl) refl

abbrev sender : Channel
sender = record (fresh 4) { remote_id = 1 }

writes-got_example :
    (write_all plain ((7 ∷ 8 ∷ []) ∷ (9 ∷ []) ∷ []) (record { ch = sender; enc = writer })
      ≡ record {
        ch = sender;
        enc = record {
          written = [] ++ wire plain-Carries 1 ((7 ∷ 8 ∷ []) ∷ (9 ∷ []) ∷ []);
          fault = none;
        };
      })
    × ((s' : Session) × (loop plain 2 (λ n. true) one_open ≡ handled none s')
        × HasGot 0
            (fresh 1)
            (flatten ((7 ∷ 8 ∷ []) ∷ (9 ∷ []) ∷ []))
            (record { rest = []; fault = eof })
            one_open
            s')
unfolding native.Mathlib.Decide.ℕ_discrete
writes-got_example =
    writes-got plain plain-Carries (λ n. true) 1 0 [] eof ((7 ∷ 8 ∷ []) ∷ (9 ∷ []) ∷ []) sender
      (fresh 1) [] one_open refl refl refl refl refl
