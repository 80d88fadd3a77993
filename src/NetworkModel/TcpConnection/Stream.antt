-- ===== src/NetworkModel/TcpConnection/Stream.antt =====
-- The bytes of the pending packets go out in their order.
use unixtar.Prelude.{
  ℕ, zero, suc, ◌+◌, Bool, true, false, List, [], ◌∷◌, ◌++◌, Bytes, length, take, drop, leb, ◌==◌,
  if◌then◌else◌, drop-all, take-append-drop, append_assoc, append-nil, arith, inl, inr, ◌⊎◌, ◌≡◌,
  refl, sym, ap, ◌∙◌,
}
use mathlib.Core.Path.{transport}
use unixtar.NetworkModel.TcpConnection.{
  Write, written, write_again, write_failed, SendContext, ConnectionProfile, socket_send,
  send_pending, try_send_pending_packets, send_context_send_done_callback,
}

-- What is still to be sent of a context, and of a queue.
abbrev pub unsent : SendContext → Bytes
unsent ctx = drop ctx.pos ctx.buffer

abbrev pub all_unsent : List SendContext → Bytes
all_unsent [] = []
all_unsent (ctx ∷ rest) = unsent ctx ++ all_unsent rest

drop_nil : {A : Type 0} (n : ℕ) → drop {A = A} n [] ≡ []
drop_nil zero = refl
drop_nil (suc n) = refl

drop-drop : {A : Type 0} (n m : ℕ) (xs : List A) → drop (n + m) xs ≡ drop m (drop n xs)
drop-drop zero m xs = ap (λ k. drop k xs) (omega arith)
drop-drop (suc n) m [] = drop_nil (suc n + m) ∙ sym (drop_nil m)
drop-drop (suc n) m (x ∷ xs) =
    let next : suc n + m ≡ suc (n + m) = omega arith in
    ap (λ k. drop k (x ∷ xs)) next ∙ drop-drop n m xs

-- What goes out in a `Send` and what is left are what was to be sent, and if it is done nothing is
-- left.
abbrev IsSent : SendContext → Bytes × SendContext × Bool → Type 0
IsSent ctx (out, ctx', is_done) =
    (out ++ unsent ctx' ≡ unsent ctx) × ((is_done ≡ false) ⊎ (unsent ctx' ≡ []))

either :
    {A : Type 0} (Q : A → Type 0) (b : Bool) (x y : A)
    → (b ≡ true → Q x)
    → (b ≡ false → Q y)
    → Q (if b then x else y)
either Q true x y h k = h refl
either Q false x y h k = k refl

send_some :
    (w : Write) (ctx : SendContext)
    → IsSent ctx (elim w [
      | written n ↦
          if leb (length (unsent ctx)) n
          then (unsent ctx, record ctx { pos = length ctx.buffer }, true)
          else (take n (unsent ctx), record ctx { pos = ctx.pos + n }, false)
      | write_again ↦ ([], ctx, false)
      | write_failed ↦ ([], ctx, false)
    ])
send_some (written n) ctx =
    let empty : drop (length ctx.buffer) ctx.buffer ≡ [] =
      drop-all (length ctx.buffer) ctx.buffer (omega arith) in
    either (IsSent ctx) (leb (length (unsent ctx)) n) _ _
      (λ yes_all. (ap (λ t. unsent ctx ++ t) empty ∙ append-nil (unsent ctx), inr empty))
      (λ some_left. (
        ap (λ t. take n (unsent ctx) ++ t) (drop-drop ctx.pos n ctx.buffer)
            ∙ take-append-drop n (unsent ctx),
        inl refl,
      ))
send_some write_again ctx = (refl, inl refl)
send_some write_failed ctx = (refl, inl refl)

socket_send-IsSent : (w : Write) (ctx : SendContext) → IsSent ctx (socket_send w ctx)
unfolding socket_send
socket_send-IsSent w ctx =
    either (IsSent ctx) (length (unsent ctx) == 0) _ _ (λ empty. (refl, inl refl))
      (λ rest. send_some w ctx)

module _ {P : Type 0} where
  abbrev IsStream : List SendContext → Bytes × ConnectionProfile P × Bool → Type 0
  IsStream queue (out, c, all_done) =
      (out ++ all_unsent c.pending_send_ctx ≡ all_unsent queue)
      × ((all_done ≡ false) ⊎ (c.pending_send_ctx ≡ []))

  IsStream-done :
      (ctx ctx' : SendContext) (rest : List SendContext) (out more : Bytes)
      (c : ConnectionProfile P) (all_done : Bool)
      → IsSent ctx (out, ctx', true)
      → IsStream rest (more, c, all_done)
      → IsStream (ctx ∷ rest) (out ++ more, c, all_done)
  IsStream-done ctx ctx' rest out more c all_done (e, inl flag) (f, g) = absurd cc
  IsStream-done ctx ctx' rest out more c all_done (e, inr nothing) (f, g) = (
    append_assoc out more (all_unsent c.pending_send_ctx)
        ∙ ap (λ t. out ++ t) f
        ∙ ap (λ t. t ++ all_unsent rest)
            (sym (append-nil out) ∙ ap (λ t. out ++ t) (sym nothing) ∙ e),
    g,
  )

  send_pending-IsStream :
      (writes : List (Write × ℕ)) (queue : List SendContext) (c : ConnectionProfile P)
      → IsStream queue (send_pending writes queue c)
  unfolding send_pending
  send_pending-IsStream writes [] c = (refl, inr refl)
  send_pending-IsStream [] (ctx ∷ rest) c = (refl, inl refl)
  send_pending-IsStream ((w, now) ∷ writes) (ctx ∷ rest) c =
      let (out, ctx', is_send_done) = socket_send w ctx in
      let sent : IsSent ctx (out, ctx', is_send_done) = socket_send-IsSent w ctx in
      let d = send_context_send_done_callback now ctx' c in
      let (more, c', all_done) = send_pending writes rest d in
      either (IsStream (ctx ∷ rest)) is_send_done (out ++ more, c', all_done) _
        (λ yes_done.
          IsStream-done ctx ctx' rest out more c' all_done
            (transport (ap (λ b. IsSent ctx (out, ctx', b)) yes_done) sent)
            (send_pending-IsStream writes rest d))
        (λ not_done. (
          sym (append_assoc out (unsent ctx') (all_unsent rest))
              ∙ ap (λ t. t ++ all_unsent rest) sent.0,
          inl refl,
        ))

  -- The bytes of pending packets go out in their order and none is lost, whatever the system's
  -- `write` takes of them in a call of `TrySendPendingPackets`: what goes out, and behind it what the
  -- queue has still to send, are what the queue had to send before. If it returns true, the queue is
  -- empty.
  pub try_send_pending_packets-all_unsent :
      (writes : List (Write × ℕ)) (c : ConnectionProfile P)
      → ((try_send_pending_packets writes c).0
            ++ all_unsent ((try_send_pending_packets writes c).1.pending_send_ctx)
          ≡ all_unsent c.pending_send_ctx)
        × (((try_send_pending_packets writes c).2 ≡ false)
            ⊎ ((try_send_pending_packets writes c).1.pending_send_ctx ≡ []))
  unfolding try_send_pending_packets
  try_send_pending_packets-all_unsent writes c = send_pending-IsStream writes c.pending_send_ctx c
