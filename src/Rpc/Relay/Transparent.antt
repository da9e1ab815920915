-- ===== src/Rpc/Relay/Transparent.antt =====
-- A call through ProxyHandler, compared with the call without it.
use qtalk_go.Base.{
  ℕ, ◌≡◌, refl, sym, ap, ◌∙◌, true, List, [], ◌∷◌, ◌++◌, none, some, ok, Error, append-nil,
}
use qtalk_go.Rpc.Framing.Frames.{frame_of}
use qtalk_go.Rpc.Selector.{Str, clean_selector}
use qtalk_go.Rpc.Selector.Canonical.{clean_selector-IsClean}
use qtalk_go.Rpc.Exchange.{
  Codec, Stream, close, Responder, Args, fresh_responder, args_list, serve_call, default_return,
  close_unless_continued,
}
use qtalk_go.Rpc.Exchange.Answers.{
  open_stream, CarriesCall, frames, request_bytes, send_to-carried, serve_call-read,
}
use qtalk_go.Rpc.Relay.{Copied, copy, Proxied, copied_back, copied_to, after_header, proxy_handler}

copy-open :
    (bytes : List ℕ) (done sent rest : List ℕ) (e e' : Error)
    → ((copy (open_stream done bytes e) (open_stream sent rest e')).src ≡ open_stream done [] e)
      × ((copy (open_stream done bytes e) (open_stream sent rest e')).dst
          ≡ open_stream (sent ++ bytes) rest e')
unfolding copy
copy-open [] done sent rest e e' =
    (refl, ap (λ (l : List ℕ). open_stream l rest e') (sym (append-nil sent)))
copy-open (x ∷ bytes) done sent rest e e' = (refl, refl)

module _ {V : Type 0} (own other : Codec V) (text : Error → Str) where
  -- The proxy as the server of a call, with what the other channel has to read.
  abbrev pub through : List ℕ → Error → Str → Responder → Responder
  through answer e s r = (proxy_handler own other text (ok (open_stream [] answer e)) s r).responder

  copied_to-done :
      (r : Responder) (c : Copied) (a b : Stream)
      → c.src ≡ a
      → c.dst ≡ b
      → copied_to own other text r c ≡ copied_back own other text r (copy b a)
  copied_to-done r c a b p q = rw (p, q) refl

  copied_back-done :
      (r : Responder) (c : Copied) (a b : Stream)
      → c.src ≡ a
      → c.dst ≡ b
      → copied_back own other text r c ≡ record {
        responder = record {
          responded = true;
          header = record r.header { continue_ = true };
          ch = close b;
        };
        dst = some a;
        write_closed = true;
      }
  copied_back-done r c a b p q = rw (p, q) refl

  -- The header goes first, what is left of the call follows it, and the answer comes back.
  proxy_handler-passes :
      (s : Str) (body answer : List ℕ) (e e' : Error)
      → CarriesCall other s
      → proxy_handler own other text
          (ok (open_stream [] answer e'))
          s
          (fresh_responder own (open_stream [] body e))
        ≡ record {
          responder = record {
            responded = true;
            header = record { error = none; continue_ = true };
            ch = close (open_stream answer [] e);
          };
          dst =
              some (
                open_stream (frame_of (other.encode_call (record { selector = s })) ++ body) [] e');
          write_closed = true;
        }
  unfolding proxy_handler
  proxy_handler-passes s body answer e e' c =
      let r = fresh_responder own (open_stream [] body e) in
      let head = frame_of (other.encode_call (record { selector = s })) in
      ap (after_header own other text r) (
        send_to-carried other.encode_call other.decode_call (record { selector = s }) [] answer e'
          c)
      ∙ copied_to-done r (copy r.ch (open_stream head answer e')) _ _
          (copy-open body [] head answer e e').0 (copy-open body [] head answer e e').1
      ∙ copied_back-done r (copy (open_stream (head ++ body) answer e') (open_stream [] [] e)) _ _
          (copy-open answer (head ++ body) [] [] e' e).0
          (copy-open answer (head ++ body) [] [] e' e).1

module _ {V : Type 0} (cd : Codec V) (text : Error → Str) (s : Str) (args : Args V) where
  -- What a server makes of the call.
  abbrev pub served : (Str → Responder → Responder) → Str → Error → Responder
  served hn t e = serve_call cd hn (open_stream [] (request_bytes cd t args) e)

  -- A call through ProxyHandler over streams that do not fail, where the codec carries the selector
  -- and its canonical form, to a server that ends with the same error as the stream of the call: the
  -- server is sent the request with the canonical selector and is then closed for writing; whatever
  -- its handler, it does what it does for the call itself, and the caller gets the same bytes, and
  -- the channel is closed.
  pub proxy_handler-Relays :
      (hn : Str → Responder → Responder) (e e' : Error)
      → CarriesCall cd s
      → CarriesCall cd (clean_selector s)
      → let target = served hn (clean_selector s) e in
        let answer = target.ch.out.written in
        let forwarded =
          proxy_handler cd cd text
            (ok (open_stream [] answer e'))
            (clean_selector s)
            (fresh_responder cd (open_stream [] (frames cd (args_list cd args)) e)) in
        (forwarded.dst ≡ some (open_stream (request_bytes cd (clean_selector s) args) [] e'))
        × (forwarded.write_closed ≡ true)
        × (target ≡ served hn s e)
        × ((served (through cd cd text answer e') s e).ch.out.written
            ≡ (served hn s e).ch.out.written)
        × ((served (through cd cd text answer e') s e).ch.is_closed ≡ true)
  unfolding default_return
  proxy_handler-Relays hn e e' c c' =
      let target = served hn (clean_selector s) e in
      let answer = target.ch.out.written in
      let body = frames cd (args_list cd args) in
      let same =
        serve_call-read cd hn (clean_selector s) args e c'
        ∙ ap
            (λ (t : Str).
              close_unless_continued cd
                (default_return cd (hn t (fresh_responder cd (open_stream [] body e)))))
            (clean_selector-IsClean s).1
        ∙ sym (serve_call-read cd hn s args e c) in
      let passed = proxy_handler-passes cd cd text (clean_selector s) body answer e e' c' in
      let through_it =
        serve_call-read cd (through cd cd text answer e') s args e c
        ∙ ap (λ (p : Proxied). close_unless_continued cd (default_return cd p.responder)) passed in
      (
        ap (λ (p : Proxied). p.dst) passed,
        ap (λ (p : Proxied). p.write_closed) passed,
        same,
        ap (λ (r : Responder). r.ch.out.written) through_it
            ∙ ap (λ (r : Responder). r.ch.out.written) same,
        ap (λ (r : Responder). r.ch.is_closed) through_it,
      )
