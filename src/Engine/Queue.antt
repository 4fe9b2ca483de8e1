-- ===== src/Engine/Queue.antt =====
-- `AlertEngine.enqueue_metric`, and the batches that `drain` takes from the queue.
use mathlib.Core.List.{append-nil, append_assoc}
use fastapi_alertengine.Prelude.{
  ℕ, zero, suc, ◌+◌, ◌≤◌, ◌≡◌, refl, sym, ap, ◌∙◌, String, Option, some, List, [], ◌∷◌, ◌++◌, arith,
  ltb, length, length-append, if◌then◌else◌, or_default,
}

-- A metric: the two keys that are given defaults, and the others.
pub record Metric (M : Type 0) : Type 0 where
  pub service_name : Option String
  pub instance_id : Option String
  pub rest : M

-- `MAX_QUEUE_SIZE` and `_DRAIN_BATCH_SIZE`
abbrev pub max_queue_size : ℕ
max_queue_size = 10_000

abbrev pub drain_batch_size : ℕ
drain_batch_size = 100

-- The queue, and the counters of `_stats`.
pub record Ingestion (M : Type 0) : Type 0 where
  pub queue : List (Metric M)
  pub enqueued : ℕ
  pub dropped : ℕ

module _ {M : Type 0} (service instance_name : String) where
  -- the two `setdefault`
  abbrev pub with_defaults : Metric M → Metric M
  with_defaults m = record m {
    service_name = some (or_default m.service_name service);
    instance_id = some (or_default m.instance_id instance_name);
  }

  unfoldable pub enqueue_metric : Metric M → Ingestion M → Ingestion M
  enqueue_metric m s =
      if ltb (length s.queue) max_queue_size
      then record s { queue = s.queue ++ (with_defaults m ∷ []); enqueued = s.enqueued + 1 }
      else record s { dropped = s.dropped + 1 }

-- the loop that fills a batch: what it takes, and what is left
unfoldable pub take_batch {ℓ} : {A : Type ℓ} → ℕ → List A → List A × List A
take_batch zero q = ([], q)
take_batch (suc n) [] = ([], [])
take_batch (suc n) (m ∷ q) = let (batch, left) = take_batch n q in (m ∷ batch, left)

-- A call of `enqueue_metric`, or a round of `drain`.
pub data Event (M : Type 0) : Type 0 where
  arrives : Metric M → Event M
  drains : Event M

module _ {M : Type 0} (service instance_name : String) where
  unfoldable pub happen : Event M → Ingestion M → List (Metric M) × Ingestion M
  happen (arrives m) s = ([], enqueue_metric service instance_name m s)
  happen drains s =
      let (batch, left) = take_batch drain_batch_size s.queue in (batch, record s { queue = left })

  -- The metrics of all batches, and the state at the end.
  unfoldable pub run : List (Event M) → Ingestion M → List (Metric M) × Ingestion M
  run [] s = ([], s)
  run (e ∷ es) s =
      let (batch, s₁) = happen e s in let (batches, s₂) = run es s₁ in (batch ++ batches, s₂)

  -- What one event accepts: its metric with the defaults, if there is room.
  abbrev pub accepted : Event M → Ingestion M → List (Metric M)
  accepted (arrives m) s =
      if ltb (length s.queue) max_queue_size then with_defaults service instance_name m ∷ [] else []
  accepted drains s = []

  unfoldable pub accepted_all : List (Event M) → Ingestion M → List (Metric M)
  accepted_all [] s = []
  accepted_all (e ∷ es) s = accepted e s ++ accepted_all es (happen e s).1

-- the calls of `enqueue_metric` among the events
abbrev pub arrivals : {M : Type 0} → List (Event M) → ℕ
arrivals [] = 0
arrivals (arrives m ∷ es) = 1 + arrivals es
arrivals (drains ∷ es) = arrivals es

arrivals-cons :
    {M : Type 0} (e : Event M) (es : List (Event M))
    → arrivals (e ∷ es) ≡ arrivals (e ∷ []) + arrivals es
arrivals-cons (arrives m) es = omega arith
arrivals-cons drains es = omega arith

take_batch-append {ℓ} :
    {A : Type ℓ} (n : ℕ) (q : List A)
    → let (batch, left) = take_batch n q in
      (batch ++ left ≡ q) × (length batch ≤ n) × (length left ≤ length q)
unfolding take_batch
take_batch-append zero q = (refl, omega arith, omega arith)
take_batch-append (suc n) [] = (refl, omega arith, omega arith)
take_batch-append (suc n) (m ∷ q) =
    let (same, short, less) = take_batch-append n q in (ap (◌∷◌ m) same, omega arith, omega arith)

module _ {M : Type 0} (service instance_name : String) where
  -- one event: what leaves the queue and what stays is what was there and what is accepted
  happen_lem :
      (e : Event M) (s : Ingestion M)
      → length s.queue ≤ max_queue_size
      → let (batch, s') = happen service instance_name e s in
        (batch ++ s'.queue ≡ s.queue ++ accepted service instance_name e s)
        × (s'.enqueued + s'.dropped ≡ s.enqueued + s.dropped + arrivals (e ∷ []))
        × (length s'.queue ≤ max_queue_size)
  unfolding happen enqueue_metric
  happen_lem (arrives m) s h = ground (
    arith,
    length-append s.queue (with_defaults service instance_name m ∷ []),
    append-nil s.queue,
  )
  happen_lem drains s h =
      let (same, short, less) = take_batch-append drain_batch_size s.queue in
      (same ∙ sym (append-nil s.queue), omega arith, omega arith)

  -- First in, first out, and nothing uncounted: through any calls of `enqueue_metric` and rounds of
  -- `drain`, the metrics of the batches, followed by those in the queue, are the ones that were there
  -- and the accepted ones in the order of their calls; every call is counted in `enqueued` or in
  -- `dropped`; and the queue keeps its bound.
  pub run_fifo :
      (es : List (Event M)) (s : Ingestion M)
      → length s.queue ≤ max_queue_size
      → let (batches, s') = run service instance_name es s in
        (batches ++ s'.queue ≡ s.queue ++ accepted_all service instance_name es s)
        × (s'.enqueued + s'.dropped ≡ s.enqueued + s.dropped + arrivals es)
        × (length s'.queue ≤ max_queue_size)
  unfolding run accepted_all
  run_fifo [] s h = (sym (append-nil s.queue), omega arith, h)
  run_fifo (e ∷ es) s h =
      let (first, counted, short) = happen_lem e s h in
      let (batch, s₁) = happen service instance_name e s in
      let (rest, counts, bound) = run_fifo es s₁ short in
      let (batches, s₂) = run service instance_name es s₁ in
      let order : (batch ++ batches) ++ s₂.queue
          ≡ s.queue
            ++ (accepted service instance_name e s ++ accepted_all service instance_name es s₁) =
        append_assoc batch batches s₂.queue
        ∙ ap (λ q. batch ++ q) rest
        ∙ sym (append_assoc batch s₁.queue (accepted_all service instance_name es s₁))
        ∙ ap (λ q. q ++ accepted_all service instance_name es s₁) first
        ∙ append_assoc s.queue (accepted service instance_name e s)
            (accepted_all service instance_name es s₁) in
      (order, omega (arith, counted, counts, arrivals-cons e es), bound)
