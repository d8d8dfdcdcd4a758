-- ===== src/EventLoop/Rounds.antt =====
-- net/EventLoop.cpp, `doPendingFunctors`: one round, and what it leaves for the next.
use easy_event.Base.{
  Ensures, Ensures-bind, Ensures-result, Ensures-weaken, ◌≡◌, refl, sym, ap, ◌∙◌, true, false, List,
  [], ◌∷◌, ◌++◌, append-nil, append_assoc, Result, ok,
}
use easy_event.EventLoop.{EventLoop, run_each, do_pending_functors, swap_functors, set_calling}

-- What the functors queue while they run, `children f` each.
abbrev pub queued_by : {F : Type 0} → (F → List F) → List F → List F
queued_by children [] = []
queued_by children (f ∷ fs) = children f ++ queued_by children fs

module _ {F W : Type 0} (loop : W → EventLoop F) (set_loop : EventLoop F → W → W)
    (run : F → W → Result W) (children : F → List F)
    (get_set : (l : EventLoop F) (w : W) → loop (set_loop l w) ≡ l)
    (runs : (f : F) (w : W)
      → (w' : W) × (run f w ≡ ok w')
        × ((loop w').pending_functors ≡ (loop w).pending_functors ++ children f)) where
  run_each-queues :
      (fs : List F) (w : W)
      → (w' : W) × (run_each loop set_loop run fs w ≡ ok w')
        × ((loop w').pending_functors ≡ (loop w).pending_functors ++ queued_by children fs)
  unfolding run_each
  run_each-queues [] w = (w, refl, sym (append-nil (loop w).pending_functors))
  run_each-queues (f ∷ fs) w =
      let (w₁, did, one) = runs f w in
      let (w₂, rest, more) = run_each-queues fs w₁ in
      (
        w₂,
        rw did rest,
        more
            ∙ ap (λ (xs : List F). xs ++ queued_by children fs) one
            ∙ append_assoc (loop w).pending_functors (children f) (queued_by children fs),
      )

  -- If every functor runs without a fault and puts its own functors behind those that are pending,
  -- `doPendingFunctors` runs every pending functor once, in their order, and leaves pending exactly
  -- what they queued, in that order: a functor that is queued meanwhile waits for the next round.
  -- The mark that the loop is calling functors is cleared.
  pub do_pending_functors-rounds :
      (w : W)
      → (w' : W) × (done : W) × (do_pending_functors loop set_loop run w ≡ ok w')
        × (run_each loop set_loop run (loop w).pending_functors (
              set_loop
                (record (loop w) { calling_pending_functors = true; pending_functors = [] })
                w)
            ≡ ok done)
        × (w' ≡ set_loop (record (loop done) { calling_pending_functors = false }) done)
        × ((loop w').pending_functors ≡ queued_by children (loop w).pending_functors)
        × ((loop w').calling_pending_functors ≡ false)
  unfolding do_pending_functors
  do_pending_functors-rounds w =
      let swapped : EventLoop F = record (loop w) {
        calling_pending_functors = true;
        pending_functors = [];
      } in
      let (done, did, left) = run_each-queues (loop w).pending_functors (set_loop swapped w) in
      let ended : EventLoop F = record (loop done) { calling_pending_functors = false } in
      (
        set_loop ended done,
        done,
        rw did,
        did,
        refl,
        ap (λ (l : EventLoop F). l.pending_functors) (get_set ended done)
            ∙ left
            ∙ ap
                (λ (l : EventLoop F).
                  l.pending_functors ++ queued_by children (loop w).pending_functors)
                (get_set swapped w),
        ap (λ (l : EventLoop F). l.calling_pending_functors) (get_set ended done),
      )

module _ {F W : Type 0} (loop : W → EventLoop F) (set_loop : EventLoop F → W → W)
    (run : F → W → Result W) where
  pub run_each-nil : (w : W) → run_each loop set_loop run [] w ≡ ok w
  unfolding run_each
  run_each-nil w = refl

  pub run_each-cons :
      (f : F) (fs : List F) (w w₁ w₂ : W)
      → run f w ≡ ok w₁
      → run_each loop set_loop run fs w₁ ≡ ok w₂
      → run_each loop set_loop run (f ∷ fs) w ≡ ok w₂
  unfolding run_each
  run_each-cons f fs w w₁ w₂ did rest = rw did rest

  -- A round with the functors `fs`.
  pub do_pending_functors-runs :
      (fs : List F) (w done : W)
      → (loop w).pending_functors ≡ fs
      → run_each loop set_loop run fs (set_loop (swap_functors (set_calling true (loop w))) w)
        ≡ ok done
      → do_pending_functors loop set_loop run w ≡ ok (set_loop (set_calling false (loop done)) done)
  unfolding do_pending_functors
  do_pending_functors-runs fs w done pending did = rw (pending, did)

  -- A round with one functor.
  pub do_pending_functors-one :
      (f : F) (w done : W)
      → (loop w).pending_functors ≡ f ∷ []
      → run f (set_loop (swap_functors (set_calling true (loop w))) w) ≡ ok done
      → do_pending_functors loop set_loop run w ≡ ok (set_loop (set_calling false (loop done)) done)
  do_pending_functors-one f w done one did = do_pending_functors-runs (f ∷ []) w done one (
      run_each-cons f [] (set_loop (swap_functors (set_calling true (loop w))) w) done done did
        (run_each-nil done))

-- What every functor leaves alone, and putting the loop into the world, the round leaves alone.
module _ {F W : Type 0} (R : W → W → Type 0) (stays : (w : W) → R w w)
    (goes_on : (u v w : W) → R u v → R v w → R u w) (loop : W → EventLoop F)
    (set_loop : EventLoop F → W → W) (run : F → W → Result W)
    (starts : (w : W) → R w (set_loop (swap_functors (set_calling true (loop w))) w))
    (ends : (w : W) → R w (set_loop (set_calling false (loop w)) w))
    (each : (f : F) (w : W) → Ensures (R w) (run f w)) where
  run_each-Ensures : (fs : List F) (w : W) → Ensures (R w) (run_each loop set_loop run fs w)
  unfolding run_each
  run_each-Ensures [] w = Ensures-result w (stays w)
  run_each-Ensures (f ∷ fs) w =
      Ensures-bind (R w) (run f w) _ (each f w)
        λ v r. Ensures-weaken (λ x. goes_on w v x r) (run_each-Ensures fs v)

  pub do_pending_functors-Ensures :
      (w : W) → Ensures (R w) (do_pending_functors loop set_loop run w)
  unfolding do_pending_functors
  do_pending_functors-Ensures w =
      let w₀ : W = set_loop (swap_functors (set_calling true (loop w))) w in
      Ensures-bind (R w₀) (run_each loop set_loop run (loop w).pending_functors w₀) _
        (run_each-Ensures (loop w).pending_functors w₀)
        λ v r.
          Ensures-result (set_loop (set_calling false (loop v)) v)
            (goes_on w v _ (goes_on w w₀ v (starts w) r) (ends v))
