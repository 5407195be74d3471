-- ===== src/Transport/Credentials.antt =====
-- `resolveHelperCredentials` and `HelperCredentials`.
use video_thingy_rocks.Common.{
  ℕ, zero, suc, ◌+◌, ◌*◌, ◌<◌, ◌≡◌, refl, ◌⊎◌, inl, inr, Bool, true, false, Option, none, some, ltb,
  arith, Option-cases, if◌then◌else◌,
}

abbrev pub max_attempts : ℕ
max_attempts = 3

abbrev pub refresh_margin_ms : ℕ
refresh_margin_ms = 5 * 60000

-- What the helpers are given, and when it expires, if it does.
pub record Credentials (Value : Type 0) : Type 0 where
  pub value : Value
  pub expiration : Option ℕ

module _ {Value World : Type 0} (provider : World → Option (Credentials Value) × World) where
  unfoldable pub attempt : ℕ → World → Option (Credentials Value) × World
  attempt zero w = (none, w)
  attempt (suc n) w =
      let (found, w') = provider w in elim found [ none ↦ attempt n w' | some c ↦ (some c, w') ]

  abbrev pub resolve_helper_credentials : World → Option (Credentials Value) × World
  resolve_helper_credentials = attempt max_attempts

  -- `expiresAtMs > now + refreshMarginMs`, where no expiration is infinity.
  abbrev pub lasts : ℕ → Option (Credentials Value) → Bool
  lasts now none = false
  lasts now (some c) = elim c.expiration [
    | none ↦ true
    | some expires_at_ms ↦ ltb (now + refresh_margin_ms) expires_at_ms
  ]

  abbrev refreshed :
      Option (Credentials Value)
      → Option (Credentials Value)
      → Option (Credentials Value) × Option (Credentials Value)
  refreshed cached none = (none, cached)
  refreshed cached (some c) = (some c, some c)

  -- What is handed out, and the cache after it.
  unfoldable pub get :
      ℕ
      → Option (Credentials Value)
      → World
      → (Option (Credentials Value) × Option (Credentials Value)) × World
  unfolding attempt
  get now cached w =
      if lasts now cached
      then ((cached, cached), w)
      else (let (found, w') = resolve_helper_credentials w in (refreshed cached found, w'))

  -- `n` attempts that fail lead from one world to another.
  unfoldable pub Fails : ℕ → World → World → Type 0
  Fails zero w w' = w ≡ w'
  Fails (suc n) w w' = ((provider w).0 ≡ none) × Fails n (provider w).1 w'

  -- The provider gives `c` after fewer than `n` failures.
  pub record Gives (n : ℕ) (w : World) (c : Credentials Value) (w' : World) : Type 0 where
    pub failures : ℕ
    pub few : failures < n
    pub before : World
    pub failed : Fails failures w before
    pub given : provider before ≡ (some c, w')

  -- What at most `n` attempts come to.
  abbrev pub Resolves : ℕ → World → Option (Credentials Value) × World → Type 0
  Resolves n w (none, w') = Fails n w w'
  Resolves n w (some c, w') = Gives n w c w'

  Resolves-later :
      (n : ℕ) (w : World) (r : Option (Credentials Value) × World)
      → (provider w).0 ≡ none
      → Resolves n (provider w).1 r
      → Resolves (suc n) w r
  unfolding Fails
  Resolves-later n w (none, w') e h = (e, h)
  Resolves-later n w (some c, w') e h = record {
    failures = suc h.failures;
    few = omega (arith, h.few);
    before = h.before;
    failed = (e, h.failed);
    given = h.given;
  }

  attempt-Resolves : (n : ℕ) (w : World) → Resolves n w (attempt n w)
  unfolding attempt Fails
  attempt-Resolves zero w = refl
  attempt-Resolves (suc n) w = elim (Option-cases (provider w).0) [
    | inl e ↦
        rw (e, attempt)
          (Resolves-later n w (attempt n (provider w).1) e (attempt-Resolves n (provider w).1))
    | inr (found, e) ↦
        rw (e, attempt)
          (record {
            failures = 0;
            few = omega arith;
            before = w;
            failed = refl;
            given = λ i. (e i, (provider w).1);
          })
  ]

  -- The answer of `get`: either the cached value, with the world as it was, or what at most three
  -- attempts come to.
  abbrev pub Serves :
      ℕ
      → Option (Credentials Value)
      → World
      → (Option (Credentials Value) × Option (Credentials Value)) × World
      → Type 0
  Serves now cached w ((some c, cached'), w') =
      ((cached' ≡ some c)
        × (((cached ≡ some c) × (lasts now (some c) ≡ true) × (w' ≡ w))
            ⊎ ((lasts now cached ≡ false) × Gives max_attempts w c w')))
  Serves now cached w ((none, cached'), w') =
      (cached' ≡ cached) × (lasts now cached ≡ false) × Fails max_attempts w w'

  refreshed-Serves :
      (now : ℕ) (cached : Option (Credentials Value)) (w : World)
      → lasts now cached ≡ false
      → (r : Option (Credentials Value) × World) → Resolves max_attempts w r
      → Serves now cached w (refreshed cached r.0, r.1)
  refreshed-Serves now cached w e (none, w') h = (refl, e, h)
  refreshed-Serves now cached w e (some c, w') h = (refl, inr (e, h))

  if-Serves :
      (now : ℕ) (cached : Option (Credentials Value)) (w : World) (b : Bool)
      (r r' : (Option (Credentials Value) × Option (Credentials Value)) × World)
      → (b ≡ true → Serves now cached w r)
      → (b ≡ false → Serves now cached w r')
      → Serves now cached w (if b then r else r')
  if-Serves now cached w true r r' h k = h refl
  if-Serves now cached w false r r' h k = k refl

  -- Credentials are handed out from the cache only while more than the margin is left of them, and the
  -- provider is then not asked; otherwise they are those that the provider gave after fewer than three
  -- failures, and cached; and there are none, with the cache as it was, only after three failures in a
  -- row.
  pub get-Serves :
      (now : ℕ) (cached : Option (Credentials Value)) (w : World)
      → Serves now cached w (get now cached w)
  unfolding get
  get-Serves now none w = refreshed-Serves now none w refl _ (attempt-Resolves max_attempts w)
  get-Serves now (some c) w =
      if-Serves now (some c) w (lasts now (some c)) _ _ (λ e. (refl, inl (refl, e, refl)))
        (λ e.
          refreshed-Serves now (some c) w e (resolve_helper_credentials w)
            (attempt-Resolves max_attempts w))
