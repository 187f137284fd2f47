-- ===== src/Worker/Drain.antt =====
-- The queue thread of src/statsd.c takes out everything that is pending, in the order of arrival.
use statsd_c.Base.{
  ℕ, zero, suc, ◌+◌, ◌<◌, ◌≡◌, ◌∙◌, refl, ap, ap₂, none, some, List, [], ◌∷◌, ◌++◌, Bytes, map,
  arith, length, length-append, All, ◌≢◌,
}
use mathlib.Core.List.{append-nil, append_assoc}
use statsd_c.Exec.{Exec, Result, ok, fault, pure, ◌>>◌}
use statsd_c.Strings.Decimal.{ℤ}
use statsd_c.Platform.{Platform}
use statsd_c.Store.{State}
use statsd_c.Queue.{Queue, queue_store_sized, queue_pop_first_sized}
use statsd_c.Queue.Fifo.{Holds, pop_eq, Holds-tail, queue_pop_first-nil, queue_store-Holds}
use statsd_c.Worker.{process_packet, drain_queue, datagram, udp_rounds, received}

module _ (P : Platform) where
  -- The packets one after the other.
  unfoldable pub process_all : (ℕ → ℤ) → List Bytes → Exec (State P) (Unit {0})
  process_all clock [] = pure tt
  process_all clock (p ∷ ps) = do process_packet P (clock 0) p; process_all (λ n. clock (n + 1)) ps

  process_all-cons :
      (clock : ℕ → ℤ) (p : Bytes) (ps : List Bytes) (s : State P) {t : State P}
      → process_all clock (p ∷ ps) s ≡ ok (tt, t)
      → (s' : State P) × (process_packet P (clock 0) p s ≡ ok (tt, s'))
        × (process_all (λ n. clock (n + 1)) ps s' ≡ ok (tt, t))
  unfolding process_all
  process_all-cons clock p ps s {t} h = go (process_packet P (clock 0) p s) refl
    where
      go :
          (r : Result (Unit {0} × State P))
          → process_packet P (clock 0) p s ≡ r
          → (s' : State P) × (process_packet P (clock 0) p s ≡ ok (tt, s'))
            × (process_all (λ n. clock (n + 1)) ps s' ≡ ok (tt, t))
      go (ok (tt, s')) e = (s', e, ground (arith, e, h))
      go (fault f) e = absurd (ground (arith, e, h))

  process_all-nil :
      (clock : ℕ → ℤ) (s : State P) {t : State P} → process_all clock [] s ≡ ok (tt, t) → s ≡ t
  unfolding process_all
  process_all-nil clock s h = ground (arith, h)

  drain-none :
      (size fuel : ℕ) (clock : ℕ → ℤ) (q : Queue) (s : State P)
      → (queue_pop_first_sized size q).0 ≡ none
      → drain_queue P size (suc fuel) clock q s ≡ ok ((queue_pop_first_sized size q).1, s)
  unfolding drain_queue
  drain-none size fuel clock q s e = rw (e, drain_queue) refl

  drain-some :
      (size fuel : ℕ) (clock : ℕ → ℤ) (q : Queue) (x : Bytes) (s s' : State P)
      → (queue_pop_first_sized size q).0 ≡ some x
      → process_packet P (clock 0) x s ≡ ok (tt, s')
      → drain_queue P size (suc fuel) clock q s
        ≡ drain_queue P size fuel (λ n. clock (n + 1)) (queue_pop_first_sized size q).1 s'
  unfolding drain_queue
  drain-some size fuel clock q x s s' e f = rw (e, f, drain_queue) refl

  -- With more fuel than there are packets, the inner loop of `p_thread_queue` carries out all
  -- pending packets in their order, and leaves an empty queue in which the next packet will be
  -- found.
  pub drain_queue-Holds :
      (size fuel : ℕ) (clock : ℕ → ℤ) (xs : List Bytes) (q : Queue) (s : State P) {t : State P}
      → Holds size q xs
      → length xs < fuel
      → process_all clock xs s ≡ ok (tt, t)
      → (q' : Queue) × Holds size q' [] × (drain_queue P size fuel clock q s ≡ ok (q', t))
  drain_queue-Holds size zero clock xs q s h f e = absurd (omega arith)
  drain_queue-Holds size (suc fuel) clock [] q s h f e =
      let popped = queue_pop_first-nil size q h.pending in
      (
        q,
        h,
        drain-none size fuel clock q s (ap (λ o. o.0) popped)
            ∙ ap₂ (λ o u. ok (o, u)) (ap (λ o. o.1) popped) (process_all-nil clock s e),
      )
  drain_queue-Holds size (suc fuel) clock (x ∷ xs) q s h f e =
      let (s', a, b) = process_all-cons clock x xs s e in
      let popped = pop_eq size q x xs h.pending in
      let (q', k, r) =
        drain_queue-Holds size fuel (λ n. clock (n + 1)) xs (queue_pop_first_sized size q).1 s'
          (Holds-tail size q x xs h) (omega arith) b in
      (q', k, drain-some size fuel clock q x s s' (ap (λ o. o.0) popped) a ∙ r)

-- Datagrams that are not empty are stored, each as the C string that it begins with.
pub udp_rounds-Holds :
    (size : ℕ) (ds : List Bytes) (q : Queue) (xs : List Bytes)
    → Holds size q xs
    → All (λ d. d ≢ []) ds
    → length xs + length ds < suc size
    → Holds size (udp_rounds size (map datagram ds) q) (xs ++ map received ds)
unfolding udp_rounds
udp_rounds-Holds size [] q xs h ne room = rw append-nil h
udp_rounds-Holds size ([] ∷ ds) q xs h ne room = absurd (ne.0 refl)
udp_rounds-Holds size ((c ∷ cs) ∷ ds) q xs h ne room =
    rw (← append_assoc xs (received (c ∷ cs) ∷ []) (map received ds)) (
      udp_rounds-Holds size ds (queue_store_sized size (received (c ∷ cs)) q)
        (xs ++ received (c ∷ cs) ∷ [])
        (queue_store-Holds size q xs (received (c ∷ cs)) h (omega arith)) ne.1
        (omega (arith, length-append xs (received (c ∷ cs) ∷ []))))
