-- ===== src/Cleanup/Bounds.antt =====
-- What a run of the cleanup lambda changes and reports.
use video_thingy_rocks.Common.{
  ℕ, ◌+◌, ◌-◌, ◌≤◌, ◌≡◌, ◌⊎◌, inl, inr, refl, String, Option, none, some, true, arith, List, [],
  ◌∷◌, length, Option-cases, ℕ_discrete, ◌∙◌,
}
use video_thingy_rocks.Dynamo.{DocumentClient, Laws}
use video_thingy_rocks.StreamTable.{StreamMetadata, silent_since}
use video_thingy_rocks.Cleanup.{
  ScanItem, marked_active, cleanup_command, Cleaned, clean_item, clean_items, handler,
  inactivity_threshold_ms,
}

-- A row that a run left as it was, or one that was active and silent.
abbrev pub FreedIfStale : ℕ → Option StreamMetadata → Option StreamMetadata → Type 0
FreedIfStale threshold o p =
    (p ≡ o) ⊎ ((marked_active o ≡ true) × (silent_since threshold o ≡ true))

FreedIfStale-trans :
    (threshold : ℕ) (o p q : Option StreamMetadata)
    → FreedIfStale threshold o p
    → FreedIfStale threshold p q
    → FreedIfStale threshold o q
FreedIfStale-trans threshold o p q (inl e) (inl f) = inl (f ∙ e)
FreedIfStale-trans threshold o p q (inl e) (inr h) = inr (rw e at h)
FreedIfStale-trans threshold o p q (inr h) k = inr h

module _ (db : DocumentClient StreamMetadata) (laws : Laws db) (threshold port : ℕ) where
  send_cleanup :
      (p now : ℕ) (t : db.Table)
      → FreedIfStale threshold
          (db.item t port)
          (db.item (db.send_update (cleanup_command p now threshold) t).1 port)
  send_cleanup p now t = elim (ℕ_discrete port p) [
    | no other ↦ inl (laws.update_others (cleanup_command p now threshold) t port other)
    | yes same ↦ rw same (elim (laws.update_atomic (cleanup_command p now threshold) t) [
      | inl untouched ↦ inl untouched
      | inr (passed, wrote) ↦ inr (ground arith)
    ])
  ]

  clean_item-FreedIfStale :
      (now : ℕ) (i : ScanItem) (t : db.Table)
      → FreedIfStale threshold (db.item t port) (db.item (clean_item db now threshold i t).1 port)
  unfolding clean_item
  clean_item-FreedIfStale now i t = grind (arith, send_cleanup)

  clean_items-FreedIfStale :
      (clock : ℕ → ℕ) (cleaned : ℕ) (items : List ScanItem) (t : db.Table)
      → FreedIfStale threshold
          (db.item t port)
          (db.item (clean_items db clock threshold cleaned items t).1 port)
  unfolding clean_items
  clean_items-FreedIfStale clock cleaned [] t = inl refl
  clean_items-FreedIfStale clock cleaned (i ∷ items) t =
      let first = clean_item-FreedIfStale (clock (length items)) i t in
      elim (Option-cases (clean_item db (clock (length items)) threshold i t).0) [
        | inl threw ↦ rw (threw, clean_items) first
        | inr (k, e) ↦
            rw (e, clean_items)
              (FreedIfStale-trans threshold _ _ _ first
                (clean_items-FreedIfStale clock (cleaned + k) items _))
      ]

module _ (db : DocumentClient StreamMetadata) where
  clean_item-le :
      (now threshold : ℕ) (i : ScanItem) (t : db.Table) (n : ℕ)
      → (clean_item db now threshold i t).0 ≡ some n
      → n ≤ 1
  unfolding clean_item
  clean_item-le now threshold i t n e = ground arith

  clean_items-le :
      (clock : ℕ → ℕ) (threshold cleaned : ℕ) (items : List ScanItem) (t : db.Table) (n : ℕ)
      → (clean_items db clock threshold cleaned items t).0 ≡ some n
      → n ≤ cleaned + length items
  unfolding clean_items
  clean_items-le clock threshold cleaned [] t n e = ground arith
  clean_items-le clock threshold cleaned (i ∷ items) t n e =
      let first = clean_item-le (clock (length items)) threshold i t in
      elim (Option-cases (clean_item db (clock (length items)) threshold i t).0) [
        | inl threw ↦ cc (rw (threw, clean_items) at e)
        | inr (k, found) ↦
            let rest =
              clean_items-le clock threshold (cleaned + k) items _ n
                (rw (found, clean_items) at e) in
            omega (arith, first k found)
      ]

module _ (db : DocumentClient StreamMetadata) (laws : Laws db) where
  -- A run of the cleanup frees a port's row only if the row was marked active and silent since
  -- the threshold: every other row stays as it was, also where the run ends early by a throw.
  pub handler-FreedIfStale :
      (table_name : Option String) (clock : ℕ → ℕ) (now : ℕ) (scanned : Option (List ScanItem))
      (t : db.Table) (port : ℕ)
      → FreedIfStale
          (now - inactivity_threshold_ms)
          (db.item t port)
          (db.item (handler db table_name clock now scanned t).1 port)
  unfolding handler
  handler-FreedIfStale table_name clock now none t port = inl refl
  handler-FreedIfStale table_name clock now (some items) t port =
      let run =
        clean_items-FreedIfStale db laws (now - inactivity_threshold_ms) port clock 0 items t in
      ground arith

-- A run that returns counts no more cleaned rows than it scanned.
pub handler-cleaned_le :
    (db : DocumentClient StreamMetadata) (table_name : Option String) (clock : ℕ → ℕ) (now : ℕ)
    (items : List ScanItem) (t : db.Table) (c : Cleaned)
    → (handler db table_name clock now (some items) t).0 ≡ some c
    → (c.cleaned ≤ c.total) × (c.total ≡ length items)
unfolding handler
handler-cleaned_le db table_name clock now items t c e =
    ground (arith, clean_items-le db clock (now - inactivity_threshold_ms) 0 items t c.cleaned)
