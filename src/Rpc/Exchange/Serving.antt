-- ===== src/Rpc/Exchange/Serving.antt =====
-- Server.Respond over all channels of a session, and Client.Call under a context.
use qtalk_go.Base.{
  ℕ, ◌≡◌, ◌⊎◌, inl, inr, refl, ap, List, [], ◌∷◌, ◌++◌, map, some, Result, ok, err, Error, eof,
}
use qtalk_go.Rpc.Selector.{Str}
use qtalk_go.Rpc.Exchange.{
  Codec, ResponseHeader, Stream, Responder, Returned, Args, finished_serving, served, serve_call,
  respond_all, client_call, call, on_channel, with_context,
}

module _ {V : Type 0} (cd : Codec V) where
  -- All channels that Accept gives before it returns io.EOF are served, each by itself, and none
  -- after.
  pub respond_all-served :
      (hn : Str → Responder → Responder) (chs : List Stream) (later : List (Result Stream))
      → respond_all cd hn (map ok chs ++ (err eof ∷ later))
        ≡ (map (serve_call cd hn) chs, finished_serving)
  unfolding respond_all
  respond_all-served hn [] later = refl
  respond_all-served hn (ch ∷ chs) later =
      ap (served (serve_call cd hn ch)) (respond_all-served hn chs later)

  with_context-cancelled :
      (e : Error) (r : Returned V × Stream)
      → ((with_context cd (some e) (on_channel cd r)).0 ≡ Returned.failed e)
        ⊎ ((hd : ResponseHeader) × ((with_context cd (some e) (on_channel cd r)).0
              ≡ Returned.reply_failed hd e))
  with_context-cancelled e (Returned.failed x, ch) = inl refl
  with_context-cancelled e (Returned.remote_error hd s, ch) = inr (hd, refl)
  with_context-cancelled e (Returned.replied hd vs, ch) = inr (hd, refl)
  with_context-cancelled e (Returned.reply_failed hd x, ch) = inr (hd, refl)

  -- Where its context has ended, Call on an open channel reports the context's error, whatever the
  -- peer has answered.
  pub client_call-cancelled :
      (ch : Stream) (e : Error) (selector : Str) (args : Args V) (n : ℕ)
      → ((client_call cd (ok ch) (some e) selector args n).0 ≡ Returned.failed e)
        ⊎ ((hd : ResponseHeader) × ((client_call cd (ok ch) (some e) selector args n).0
              ≡ Returned.reply_failed hd e))
  unfolding client_call
  client_call-cancelled ch e selector args n = with_context-cancelled e (call cd selector args n ch)
