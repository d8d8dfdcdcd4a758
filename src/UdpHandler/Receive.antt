-- ===== src/UdpHandler/Receive.antt =====
-- net/UdpHandler.cpp, `handleReceiveMessage`: what the callback for messages learns of a datagram.
use easy_event.Base.{
  ℕ, ◌+◌, ◌≤◌, ◌≡◌, refl, sym, ap, ◌∙◌, List, ◌++◌, length, take, drop, length-append, length-drop,
  append_assoc, take-append-drop, drop-drop, length-take_le, arith,
}
use easy_event.CapsuledAddr.{SockaddrIn}
use easy_event.UdpHandler.{
  RecvAnswer, received, UdpCallbacks, bufflen, laid_over, handle_receive_message,
}

-- Bytes of the array that are received again change nothing.
laid_over-more :
    (bytes old : List ℕ) (more : ℕ)
    → length bytes + more ≤ length old
    → laid_over (bytes ++ take more (drop (length bytes) old)) old ≡ laid_over bytes old
laid_over-more bytes old more within =
    let rest : List ℕ = drop (length bytes) old in
    let size : length bytes + more ≡ length (bytes ++ take more rest) = omega (
      arith,
      length-append bytes (take more rest),
      length-take_le more rest (omega (arith, length-drop (length bytes) old)),
    ) in
    ap (λ n. (bytes ++ take more rest) ++ drop n old) (sym size)
    ∙ ap (λ (xs : List ℕ). (bytes ++ take more rest) ++ xs)
        (sym (drop-drop more (length bytes) (length bytes + more) old refl))
    ∙ append_assoc bytes (take more rest) (drop more rest)
    ∙ ap (λ (xs : List ℕ). bytes ++ xs) (take-append-drop more rest)

-- The callback is called in the same way for a datagram and for a longer one that ends with bytes
-- which were on the stack anyway: it is given the whole array and its size, but not the number of
-- bytes that were received.
pub receive_ambiguous :
    {W : Type 0} (cb : UdpCallbacks W) (short long : ℕ → RecvAnswer) (bytes old : List ℕ) (more : ℕ)
    (peer : SockaddrIn) (w : W)
    → length bytes + more ≤ length old
    → short bufflen ≡ received bytes peer
    → long bufflen ≡ received (bytes ++ take more (drop (length bytes) old)) peer
    → handle_receive_message cb short old w ≡ handle_receive_message cb long old w
unfolding handle_receive_message
receive_ambiguous cb short long bytes old more peer w within e f =
    rw (handle_receive_message, e, f, laid_over-more bytes old more within)
