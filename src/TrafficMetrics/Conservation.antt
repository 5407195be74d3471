-- ===== src/TrafficMetrics/Conservation.antt =====
-- No byte is lost or counted twice, however requests fail and overlap with traffic.
use video_thingy_rocks.Common.{
  ℕ, ◌+◌, ◌≡◌, refl, inl, inr, ap, String, Bool, false, not, ◌||◌, List, [], ◌∷◌, ◌++◌, str_eq, ltb,
  if◌then◌else◌, arith, Bool-cases, str_eq_iff,
}
use video_thingy_rocks.TrafficMetrics.{
  TransportTrafficSample, add_bytes, TrafficMetrics, new_metrics, record_received, set_serving,
  samples_of, clear, restore, begin_publish, end_publish, Event, receive, serve, request, respond,
  handle_event, handle_events,
}

or-false : (a b : Bool) → (a || b) ≡ false → b ≡ false
or-false a b h = ground arith

module _ (k : String) where
  abbrev pub if_of : String → ℕ → ℕ
  if_of t n = if str_eq t k then n else 0

  -- The bytes of transport `k` in the counters, in samples, and in traffic.
  pub counted : List (String × ℕ) → ℕ
  counted [] = 0
  counted ((t, n) ∷ rest) = if_of t n + counted rest

  pub sampled : List TransportTrafficSample → ℕ
  sampled [] = 0
  sampled (s ∷ rest) = if_of s.transport s.bytes + sampled rest

  pub arrived : List Event → ℕ
  arrived [] = 0
  arrived (receive t n ∷ es) = if_of t n + arrived es
  arrived (_ ∷ es) = arrived es

  counted-add_bytes :
      (t : String) (n : ℕ) (xs : List (String × ℕ))
      → counted (add_bytes t n xs) ≡ if_of t n + counted xs
  unfolding counted add_bytes
  counted-add_bytes t n [] = refl
  counted-add_bytes t n ((u, m) ∷ xs) = ground (arith, counted-add_bytes t n xs, str_eq_iff u t)

  counted-clear : (xs : List (String × ℕ)) → counted (clear xs) ≡ 0
  unfolding counted clear
  counted-clear [] = refl
  counted-clear ((t, n) ∷ xs) = ground (arith, counted-clear xs)

  sampled-samples_of :
      (serving : String → Bool) (now : ℕ) (xs : List (String × ℕ))
      → sampled (samples_of serving now xs) ≡ counted xs
  unfolding counted sampled samples_of
  sampled-samples_of serving now [] = refl
  sampled-samples_of serving now ((t, n) ∷ xs) =
      ap (λ (z : ℕ). if_of t n + z) (sampled-samples_of serving now xs)

  sampled-append :
      (xs ys : List TransportTrafficSample) → sampled (xs ++ ys) ≡ sampled xs + sampled ys
  unfolding sampled
  sampled-append [] ys = omega arith
  sampled-append (s ∷ xs) ys = omega (arith, sampled-append xs ys)

  counted-restore :
      (samples : List TransportTrafficSample) (xs : List (String × ℕ))
      → counted (restore samples xs) ≡ sampled samples + counted xs
  unfolding counted sampled restore
  counted-restore [] xs = omega arith
  counted-restore (s ∷ samples) xs = elim (Bool-cases (ltb 0 s.bytes)) [
    | inl e ↦ rw e (
        omega (
          arith,
          counted-restore samples (add_bytes s.transport s.bytes xs),
          counted-add_bytes s.transport s.bytes xs,
        ))
    | inr e ↦ rw e (ground (arith, counted-restore samples xs, e))
  ]

  -- All the bytes that the metrics know of.
  abbrev pub balance : TrafficMetrics → ℕ
  balance m = counted m.received + sampled m.in_flight + sampled m.published

  -- What one step keeps: without a request there are no samples in flight.
  record Step (n : ℕ) (m m' : TrafficMetrics) : Type 0 where
    idle : m'.busy ≡ false → m'.in_flight ≡ []
    same : balance m' ≡ balance m + n

  begin_publish-Step :
      (now : ℕ) (m : TrafficMetrics)
      → (m.busy ≡ false → m.in_flight ≡ [])
      → Step 0 m (begin_publish now m)
  unfolding begin_publish sampled
  begin_publish-Step now m idle = elim (Bool-cases (not m.enabled || m.busy)) [
    | inl e ↦ simp e (record { idle = idle; same = omega arith })
    | inr e ↦
        let none_left = idle (or-false (not m.enabled) m.busy e) in
        simp e (record {
          idle = λ h. cc;
          same = omega (
            arith,
            counted-clear m.received,
            sampled-samples_of m.is_serving now m.received,
            ap sampled none_left,
          );
        })
  ]

  end_publish-Step :
      (succeeded : Bool) (m : TrafficMetrics)
      → (m.busy ≡ false → m.in_flight ≡ [])
      → Step 0 m (end_publish succeeded m)
  unfolding end_publish sampled
  end_publish-Step succeeded m idle = elim (Bool-cases m.busy) [
    | inr e ↦ simp e (record { idle = idle; same = omega arith })
    | inl e ↦ elim (Bool-cases succeeded) [
      | inl p ↦
          simp (e, p)
            (record {
              idle = λ h. refl;
              same = omega (arith, sampled-append m.in_flight m.published);
            })
      | inr p ↦
          simp (e, p)
            (record {
              idle = λ h. refl;
              same = omega (arith, counted-restore m.in_flight m.received);
            })
    ]
  ]

  handle_events-balance :
      (es : List Event) (m : TrafficMetrics)
      → (m.busy ≡ false → m.in_flight ≡ [])
      → balance (handle_events es m) ≡ balance m + arrived es
  unfolding handle_events handle_event arrived record_received
  handle_events-balance [] m idle = omega arith
  handle_events-balance (receive t n ∷ es) m idle = omega (
    arith,
    handle_events-balance es (record_received t n m) idle,
    counted-add_bytes t n m.received,
  )
  handle_events-balance (serve t serving ∷ es) m idle =
      handle_events-balance es (set_serving t serving m) idle
  handle_events-balance (request now ∷ es) m idle =
      let s = begin_publish-Step now m idle in
      omega (arith, handle_events-balance es (begin_publish now m) s.idle, s.same)
  handle_events-balance (respond succeeded ∷ es) m idle =
      let s = end_publish-Step succeeded m idle in
      omega (arith, handle_events-balance es (end_publish succeeded m) s.idle, s.same)

  -- However traffic, requests and their outcomes interleave: the bytes of a transport that arrived are
  -- exactly those that were published, that are in the request in flight, or that are counted for a
  -- later one.
  pub handle_events-conserve :
      (es : List Event) (enabled : Bool)
      → balance (handle_events es (new_metrics enabled)) ≡ arrived es
  unfolding counted sampled
  handle_events-conserve es enabled =
      ground (arith, handle_events-balance es (new_metrics enabled) (λ h. refl))
