-- ===== src/Lib.antt =====
-- qtalk-go: remote procedure calls over a multiplexer of byte channels.
--
-- A session (mux) runs over one byte transport and carries many channels. Each side reads frames,
-- finds the channel that a frame is for, and lets it handle the frame; a channel has a window that
-- limits what its peer may send, and a buffer of what waits to be read. A call (rpc) opens a channel,
-- sends a selector and its arguments as length-prefixed values of a codec, and reads a response
-- header and the values; on the other side a multiplexer of handlers looks the selector up.
--
-- Base      shared names, and Go's uint32 and byte arithmetic: big-endian words and wrap-around.
-- Frame     mux/frame: the messages and their bytes (message*.go), Encode (encoder.go) and Decode
--           (decoder.go), with readers and writers that can fail.
-- Mux       mux: the window (util_window.go), the channel list (util_chanlist.go), the buffer
--           (util_buffer.go), the channel (channel.go), the session (session.go), the loop of Proxy
--           and the copying in both directions (proxy.go). Link puts the two ends of a channel together, with the
--           bytes that their encoders have written in between, as a step relation over the
--           operations of Channel and Window, and compares them with a pipe.
--           Listen has the dialers and listeners (dial_*.go, listen_*.go).
-- Rpc       rpc: selectors and RespondMux (handler.go) in Selector, the framed codec (frame.go) in
--           Framing, and a call on both sides (rpc.go, client.go, server.go) in Exchange;
--           ProxyHandler (proxy.go) in Relay, ServeMux (server.go) and rpctest in Serving.
-- Talk      talk: Dial with its dialers (dial.go) and the peer (peer.go).
-- Interop   interop: the services for tests between languages (service.go, callbacks.go).
-- Cmux      x/cbor/mux: the multiplexer over CBOR frames, without windows (frame.go, channel.go,
--           session.go); its buffer is a copy of that of mux.
-- Quic      x/quic: sessions and channels over QUIC (quic.go).
-- Webrtc    x/webrtc: sessions, channels and their negotiation over WebRTC (webrtc.go).
-- Tool      cmd/qtalk: the commands of the tool (main.go, call.go, check.go, bench.go, interop.go).
-- Fn        fn: functions (call.go) and structs (handler.go) as handlers, by reflection.
-- Ptr       exp/ptr.go: function pointers in values, and their registration.
-- Cli       cmd/qtalk/cli: the tree of commands (command.go), Execute, Framework and Export
--           (framework.go, context.go) and what the help shows (help.go).
--
-- Names are those of the source in this language's spelling; where one method waits in between, each
-- part between two waits is a definition. A lock makes what it guards one step. Channels of a session
-- live in a store, and a pointer to one is its index; muxes are numbers under which a heap has what
-- the mux holds. What other code decides is an argument: whether an Accept takes an offered channel,
-- what a codec makes of a value, what a handler does, what the cbor, reflect and mapstructure packages
-- make of a frame or a value, and what the net, os/exec, websocket,
-- quic-go and pion packages return.
--
-- Loops on fuel: Read of the buffer takes two rounds for each link and three more; Write as many
-- rounds as there are bytes, if the peer allows packets and there are fewer than 2^32; the copying of
-- a proxy one more round than there are bytes to read; the loop of a session a packet for each byte
-- that is left to read, since no packet is empty; sort.Search the length of the slice; Match and
-- RespondRPC the number of the mux, where muxes lie in muxes of a greater number only; walk the size of
-- the value; the loops of the interoperability services one round more than there are bytes to read, of
-- which each value takes some; Available the height of the tree of commands. Each is shown to be enough.
--
-- Not modelled: sockets, pipes and the other transports below the parameters, which are input and
-- output; the JSON and CBOR codecs, which call other packages; keys and certificates, the printed texts
-- of the tool and the template of its help.
-- The Debug trace and the String methods change nothing. The time that Open and handleOpen wait is the
-- choice of the environment. In Rpc, Relay and Interop what arrives on a channel stands in its reader
-- from the start, and a copy or a loop runs to its end.
pub mod Base
pub mod Cli
pub mod Cmux
pub mod Fn
pub mod Interop
pub mod Frame
pub mod Mux
pub mod Ptr
pub mod Quic
pub mod Rpc
pub mod Talk
pub mod Tool
pub mod Webrtc
