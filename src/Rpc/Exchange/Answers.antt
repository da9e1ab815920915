-- ===== src/Rpc/Exchange/Answers.antt =====
-- A call and its answer, end to end: the bytes of the one side are the input of the other.
use qtalk_go.Base.{
  ℕ, zero, suc, ◌≤◌, ◌≡◌, refl, sym, ap, ◌∙◌, arith, Bool, true, false, List, [], ◌∷◌, ◌++◌, Option,
  none, Result, ok, Error, if◌then◌else◌, length, take, drop, All, append-nil, append_assoc,
}
use qtalk_go.Rpc.Framing.Frames.{IsCarried, frame_of, encode-written, decode-encode}
use qtalk_go.Rpc.Selector.{Str, clean_selector}
use qtalk_go.Rpc.Exchange.{
  Any, ResponseHeader, Codec, Stream, close, sent, got, send_to, receive_from, Args, then_send,
  send_all, values_of, error_of, at_least_one, finished, with_channel, respond, fresh_responder,
  args_list, request, put_first, receive_next, receive_all, Responder, serve, serve_call,
  default_return, close_unless_continued,
}

-- A stream that does not fail: what was written, and what is still to be read.
abbrev pub open_stream : List ℕ → List ℕ → Error → Stream
open_stream done rest e = record {
  out = record { written = done; fault = none };
  input = record { rest = rest; fault = e };
  is_closed = false;
  close_fault = none;
}

module _ {A : Type 0} (enc : A → Result (List ℕ)) (dec : List ℕ → Result A) where
  pub send_to-carried :
      (v : A) (done rest : List ℕ) (e : Error)
      → IsCarried enc dec v
      → send_to enc v (open_stream done rest e)
        ≡ (none, open_stream (done ++ frame_of (enc v)) rest e)
  unfolding send_to
  send_to-carried v done rest e c =
      ap (sent (open_stream done rest e)) (encode-written enc dec v done c)

  pub receive_from-carried :
      (v : A) (done rest : List ℕ) (e : Error)
      → IsCarried enc dec v
      → receive_from dec (open_stream done (frame_of (enc v) ++ rest) e)
        ≡ (ok v, open_stream done rest e)
  unfolding receive_from
  receive_from-carried v done rest e c =
      ap (got (open_stream done (frame_of (enc v) ++ rest) e)) (decode-encode enc dec v rest e c)

module _ {V : Type 0} (cd : Codec V) where
  abbrev pub CarriesCall : Str → Type 0
  CarriesCall s = IsCarried cd.encode_call cd.decode_call (record { selector = s })

  abbrev pub CarriesHeader : ResponseHeader → Type 0
  CarriesHeader = IsCarried cd.encode_header cd.decode_header

  abbrev pub CarriesAll : List (Any V) → Type 0
  CarriesAll = All (IsCarried cd.encode_value cd.decode_value)

  -- The frames of some values, one behind the other.
  abbrev pub frames : List (Any V) → List ℕ
  frames [] = []
  frames (v ∷ vs) = frame_of (cd.encode_value v) ++ frames vs

  send_all-carried :
      (vs : List (Any V)) (done rest : List ℕ) (e : Error)
      → CarriesAll vs
      → send_all cd vs (open_stream done rest e) ≡ (none, open_stream (done ++ frames vs) rest e)
  unfolding send_all
  send_all-carried [] done rest e c =
      ap (λ (l : List ℕ). (none, open_stream l rest e)) (sym (append-nil done))
  send_all-carried (v ∷ vs) done rest e c =
      ap (then_send cd (send_all cd vs))
        (send_to-carried cd.encode_value cd.decode_value v done rest e c.0)
      ∙ send_all-carried vs (done ++ frame_of (cd.encode_value v)) rest e c.1
      ∙ ap (λ (l : List ℕ). (none, open_stream l rest e))
          (append_assoc done (frame_of (cd.encode_value v)) (frames vs))

  pub receive_all-carried :
      (vs : List (Any V)) (n : ℕ) (done rest : List ℕ) (e : Error)
      → CarriesAll vs
      → n ≤ length vs
      → receive_all cd n (open_stream done (frames vs ++ rest) e)
        ≡ (ok (take n vs), open_stream done (frames (drop n vs) ++ rest) e)
  unfolding receive_all
  receive_all-carried vs zero done rest e c h = refl
  receive_all-carried [] (suc n) done rest e c h = absurd (omega arith)
  receive_all-carried (v ∷ vs) (suc n) done rest e c h =
      ap (λ (l : List ℕ). receive_all cd (suc n) (open_stream done l e))
        (append_assoc (frame_of (cd.encode_value v)) (frames vs) rest)
      ∙ ap (receive_next cd (receive_all cd n))
          (receive_from-carried cd.encode_value cd.decode_value v done (frames vs ++ rest) e c.0)
      ∙ ap (put_first cd v) (receive_all-carried vs n done rest e c.1 (omega arith))

  -- What a call writes, and what an answer writes.
  abbrev pub request_bytes : Str → Args V → List ℕ
  request_bytes s args =
      frame_of (cd.encode_call (record { selector = s })) ++ frames (args_list cd args)

  abbrev pub header_of : List (Any V) → Bool → ResponseHeader
  header_of vs keep = record { error = error_of cd vs none; continue_ = keep }

  abbrev pub body_of : List (Any V) → List (Any V)
  body_of vs = at_least_one cd (values_of cd vs)

  abbrev pub response_bytes : List (Any V) → Bool → List ℕ
  response_bytes vs keep = frame_of (cd.encode_header (header_of vs keep)) ++ frames (body_of vs)

  pub request-carried :
      (s : Str) (args : Args V) (rest : List ℕ) (e : Error)
      → CarriesCall s
      → CarriesAll (args_list cd args)
      → request cd s args (open_stream [] rest e)
        ≡ (none, open_stream (request_bytes s args) rest e)
  unfolding request
  request-carried s args rest e c d =
      ap (then_send cd (send_all cd (args_list cd args)))
        (send_to-carried cd.encode_call cd.decode_call (record { selector = s }) [] rest e c)
      ∙ send_all-carried (args_list cd args) _ rest e d

  -- A server reads the header of a call and leaves the arguments to its handler.
  pub serve_call-read :
      (hn : Str → Responder → Responder) (s : Str) (args : Args V) (e : Error)
      → CarriesCall s
      → serve_call cd hn (open_stream [] (request_bytes s args) e)
        ≡ close_unless_continued cd (
            default_return cd (
              hn
                (clean_selector s)
                (fresh_responder cd (open_stream [] (frames (args_list cd args)) e))))
  unfolding serve_call
  serve_call-read hn s args e c = ap (serve cd hn) (
      receive_from-carried cd.encode_call cd.decode_call (record { selector = s }) []
        (frames (args_list cd args)) e c)

  -- On a stream that does not fail, with a header and values that the codec carries, a first
  -- response writes the header and then the values, nil for none or for a single error, which goes
  -- into the header, and returns no error; Return closes the channel, Continue leaves it open.
  pub respond-carried :
      (vs : List (Any V)) (keep : Bool) (rest : List ℕ) (e : Error)
      → CarriesHeader (header_of vs keep)
      → CarriesAll (body_of vs)
      → respond cd vs keep (fresh_responder cd (open_stream [] rest e)) ≡ (
        none,
        record {
          responded = true;
          header = header_of vs keep;
          ch =
              (if keep
                then open_stream (response_bytes vs keep) rest e
                else close (open_stream (response_bytes vs keep) rest e));
        },
      )
  unfolding respond
  respond-carried vs keep rest e c d =
      ap
        (λ (p : Option Error × Stream).
          with_channel cd (header_of vs keep)
            (finished cd keep (then_send cd (send_all cd (body_of vs)) p)))
        (send_to-carried cd.encode_header cd.decode_header (header_of vs keep) [] rest e c)
      ∙ ap (λ (p : Option Error × Stream). with_channel cd (header_of vs keep) (finished cd keep p))
          (send_all-carried (body_of vs) (frame_of (cd.encode_header (header_of vs keep))) rest e d)
      ∙ ends keep
    where
      ends :
          (b : Bool)
          → with_channel cd
              (header_of vs keep)
              (finished cd b (none, open_stream (response_bytes vs keep) rest e))
            ≡ (
              none,
              record {
                responded = true;
                header = header_of vs keep;
                ch =
                    (if b
                      then open_stream (response_bytes vs keep) rest e
                      else close (open_stream (response_bytes vs keep) rest e));
              },
            )
      ends true = refl
      ends false = refl
