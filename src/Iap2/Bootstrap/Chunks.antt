-- ===== src/Iap2/Bootstrap/Chunks.antt =====
-- How `receive` uses its decoder (src/iap2/bootstrap.cpp, src/iap2/csm.cpp): the messages of a stream
-- are handled in order, however the stream is cut.
use aa2acp.Base.{
  ℕ, zero, suc, ◌≤◌, ◌≡◌, refl, sym, ap, ◌∙◌, List, [], ◌∷◌, ◌++◌, All, Option, none, some, arith,
  Bytes, length,
}
use aa2acp.Iap2.Csm.{Message, push, next, drain_loop, drain, maximum_buffer_size}
use aa2acp.Iap2.Csm.Messages.{next_total}
use aa2acp.Iap2.Csm.Streams.{
  drain_loop_found_none, drain_loop_found_some, IsMessage, encode_all, drain_chunks,
}
use aa2acp.Iap2.Bootstrap.{
  Session, Environment, fail, try_send, send_empty, handle_identification, send_challenge,
  handle_certificate, is_valid_response, handle_response, handle_stage, handle, receive_loop,
  receive,
}
use aa2acp.Iap2.Bootstrap.Stages.{handle-buffer}
use aa2acp.Iap2.Bootstrap.History.{receive_loop-none, receive_loop-some}

module _ (env : Environment) where
  -- The messages one after the other.
  abbrev pub handle_all : List Message → Session → env.Link → Session × env.Link
  handle_all [] s link = (s, link)
  handle_all (m ∷ ms) s link = let (s', link') = handle env m s link in handle_all ms s' link'

  abbrev with_buffer : Bytes → Session → Session
  with_buffer buffer s = record s { buffer = buffer }

  handle-with_buffer :
      (m : Message) (b : Bytes) (s : Session) (link : env.Link)
      → handle env m (with_buffer b s) link
        ≡ (with_buffer b (handle env m s link).0, (handle env m s link).1)
  unfolding handle handle_stage handle_identification handle_certificate handle_response
      send_challenge send_empty fail try_send is_valid_response
  handle-with_buffer m b s link = ground arith

  handle_all-with_buffer :
      (ms : List Message) (b : Bytes) (s : Session) (link : env.Link)
      → handle_all ms (with_buffer b s) link
        ≡ (with_buffer b (handle_all ms s link).0, (handle_all ms s link).1)
  handle_all-with_buffer [] b s link = refl
  handle_all-with_buffer (m ∷ ms) b s link =
      rw (handle-with_buffer m b s link)
        (handle_all-with_buffer ms b (handle env m s link).0 (handle env m s link).1)

  handle_all-append :
      (ms ns : List Message) (s : Session) (link : env.Link)
      → handle_all (ms ++ ns) s link
        ≡ handle_all ns (handle_all ms s link).0 (handle_all ms s link).1
  handle_all-append [] ns s link = refl
  handle_all-append (m ∷ ms) ns s link = handle_all-append ms ns _ _

  abbrev Drained : ℕ → Session → env.Link → List Message → Bytes → Type 0
  Drained fuel s link ms rest =
      receive_loop env fuel s link
      ≡ some (with_buffer rest (handle_all ms s link).0, (handle_all ms s link).1)

  -- The loop of `receive` handles what the loop over the decoder alone would find.
  receive_loop-drain_loop :
      (fuel : ℕ) (s : Session) (link : env.Link) (ms : List Message) (rest : Bytes)
      → drain_loop fuel s.buffer ≡ some (ms, rest)
      → Drained fuel s link ms rest
  unfolding receive_loop drain_loop
  receive_loop-drain_loop zero s link ms rest e = absurd cc
  receive_loop-drain_loop (suc fuel) s link ms rest e =
      let (found, left, run, a) = next_total s.buffer in
      round found left run (λ s' l' ns h. receive_loop-drain_loop fuel s' l' ns rest h)
    where
      round :
          (found : Option Message) (left : Bytes)
          → next s.buffer ≡ some (found, left)
          → ((s' : Session) (link' : env.Link) (ns : List Message)
              → drain_loop fuel s'.buffer ≡ some (ns, rest)
              → Drained fuel s' link' ns rest)
          → Drained (suc fuel) s link ms rest
      round none left run later =
          let (no_more, same) = drain_loop_found_none fuel s.buffer left ms rest run e in
          receive_loop-none env fuel s link left run ∙ rw (no_more, same) refl
      round (some m) left run later =
          let (ns, whole, rec) = drain_loop_found_some fuel s.buffer left m ms rest run e in
          let moved = handle-with_buffer m left s link in
          let rest_of =
            later (with_buffer left (handle env m s link).0) (handle env m s link).1 ns rec in
          receive_loop-some env fuel s link m left run
          ∙ rw (whole, moved)
              (rest_of
                ∙ rw
                    (handle_all-with_buffer ns left (handle env m s link).0 (handle env m s link).1)
                    refl)

  -- `receive` handles, in order, the messages that the decoder finds in its buffer and the new bytes.
  receive-drain :
      (bytes : Bytes) (s : Session) (link : env.Link) (ms : List Message) (rest : Bytes)
      → drain (push s.buffer bytes) ≡ some (ms, rest)
      → receive env bytes s link
        ≡ some (with_buffer rest (handle_all ms s link).0, (handle_all ms s link).1)
  unfolding receive drain
  receive-drain bytes s link ms rest e =
      receive_loop-drain_loop (suc (length (push s.buffer bytes)))
        (with_buffer (push s.buffer bytes) s) link ms rest e
      ∙ rw (handle_all-with_buffer ms (push s.buffer bytes) s link) refl

  handle_all-buffer :
      (ms : List Message) (s : Session) (link : env.Link)
      → (handle_all ms s link).0.buffer ≡ s.buffer
  handle_all-buffer [] s link = refl
  handle_all-buffer (m ∷ ms) s link =
      handle_all-buffer ms (handle env m s link).0 (handle env m s link).1
      ∙ handle-buffer env m s link

  -- The buffer that a session has while it handles messages does not matter.
  handle_all_emptied :
      (ns : List Message) (rest : Bytes) (s : Session) (link : env.Link)
      → s.buffer ≡ []
      → (
        with_buffer [] (handle_all ns (with_buffer rest s) link).0,
        (handle_all ns (with_buffer rest s) link).1,
      )
        ≡ handle_all ns s link
  handle_all_emptied ns rest s link empty =
      let same : with_buffer [] s ≡ s = ap (λ c. with_buffer c s) (sym empty) in
      rw (handle_all-with_buffer ns rest s link)
        (sym (handle_all-with_buffer ns [] s link) ∙ ap (λ x. handle_all ns x link) same)

  -- A session with an empty buffer that receives a stream of encoded messages, of at most 128 KiB and
  -- cut in two anywhere, handles exactly those messages in order, and its buffer is empty again.
  pub receive_chunks :
      (all : List Message) (a b : Bytes) (s : Session) (link : env.Link)
      → All IsMessage all
      → a ++ b ≡ encode_all all
      → length (a ++ b) ≤ maximum_buffer_size
      → s.buffer ≡ []
      → (s1 : Session) × (link1 : env.Link) × (receive env a s link ≡ some (s1, link1))
        × (receive env b s1 link1 ≡ some (handle_all all s link))
  receive_chunks all a b s link v e short empty =
      let (ms, ns, rest, first, second, whole) = drain_chunks all a b v e short in
      let s1 = with_buffer rest (handle_all ms s link).0 in
      let link1 = (handle_all ms s link).1 in
      (
        s1,
        link1,
        receive-drain a s link ms rest (rw empty first),
        receive-drain b s1 link1 ns [] second
            ∙ ap some (
                handle_all_emptied ns rest (handle_all ms s link).0 link1
                  (handle_all-buffer ms s link ∙ empty)
                ∙ sym (handle_all-append ms ns s link)
                ∙ ap (λ x. handle_all x s link) whole),
      )
