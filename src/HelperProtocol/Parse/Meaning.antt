-- ===== src/HelperProtocol/Parse/Meaning.antt =====
-- What a frame says of the fields of a JSON object.
use video_thingy_rocks.Common.{
  ℕ, ◌≤◌, ◌≡◌, ◌⊎◌, inl, inr, refl, sym, ap, ◌∙◌, ◌&&◌, if◌then◌else◌, leb, get_or_else, String,
  Option, none, some, srtp_index_max, max_safe_integer, arith, Option-cases,
}
use video_thingy_rocks.HelperProtocol.{
  SrtpHelperMessage, ready, searching, auth_ok, auth_fail, auth_exhausted, auth_lost, index,
  producing, stopped, stats, warning, error, fatal, eos, unparsed,
}
use video_thingy_rocks.HelperProtocol.Json.{
  Json, number, string, natural, Fields, get, int, uint16_max, uint32_max, str, is_true,
}

module _ (value : Fields) where
  -- The field is the integer `n`, from `lo` to `hi`.
  abbrev pub IsInt : ℕ → ℕ → String → ℕ → Type 0
  IsInt lo hi name n = (get name value ≡ some (number (natural n))) × (lo ≤ n) × (n ≤ hi)

  -- The field holds no integer of the range.
  abbrev pub HasNoInt : ℕ → ℕ → String → Type 0
  HasNoInt lo hi name = (n : ℕ) → ¬ IsInt lo hi name n

  -- The field's integer if it has one of the range, and nothing otherwise.
  abbrev pub IsIntIfSome : ℕ → ℕ → String → Option ℕ → Type 0
  IsIntIfSome lo hi name none = HasNoInt lo hi name
  IsIntIfSome lo hi name (some n) = IsInt lo hi name n

  -- The field's integer if it has one of the range, and 0 otherwise.
  abbrev pub IsIntOr0 : ℕ → ℕ → String → ℕ → Type 0
  IsIntOr0 lo hi name n = IsInt lo hi name n ⊎ ((n ≡ 0) × HasNoInt lo hi name)

  abbrev pub IsText : String → String → Type 0
  IsText name s = get name value ≡ some (string s)

  abbrev pub HasNoText : String → Type 0
  HasNoText name = (s : String) → ¬ IsText name s

  abbrev pub IsTextIfSome : String → Option String → Type 0
  IsTextIfSome name none = HasNoText name
  IsTextIfSome name (some s) = IsText name s

  abbrev pub IsTextOrEmpty : String → String → Type 0
  IsTextOrEmpty name s = IsText name s ⊎ ((s ≡ "") × HasNoText name)

  -- The tag, and what each component of the frame is of the object's fields.
  abbrev pub Reads : SrtpHelperMessage → Type 0
  Reads (ready v port pid) =
      IsText "t" "ready"
      × IsInt 0 max_safe_integer "v" v
      × IsInt 1 65535 "port" port
      × IsIntIfSome 0 max_safe_integer "pid" pid
  Reads (searching candidate trial) =
      IsText "t" "searching"
      × IsInt 0 uint32_max "candidate" candidate
      × IsInt 0 max_safe_integer "trial" trial
  Reads (auth_ok first roc seq candidate trials authenticated) =
      IsText "t" "auth"
      × IsText "status" "ok"
      × (first ≡ is_true (get "first" value))
      × IsInt 0 uint32_max "roc" roc
      × IsIntIfSome 0 uint16_max "seq" seq
      × IsIntIfSome 0 uint32_max "candidate" candidate
      × IsIntIfSome 0 max_safe_integer "trials" trials
      × IsIntIfSome 0 max_safe_integer "authenticated" authenticated
  Reads (auth_fail candidate inputs drops search_from) =
      IsText "t" "auth"
      × IsText "status" "fail"
      × IsInt 0 uint32_max "candidate" candidate
      × IsIntIfSome 0 max_safe_integer "inputs" inputs
      × IsIntIfSome 0 max_safe_integer "drops" drops
      × IsIntIfSome 0 uint32_max "searchFrom" search_from
  Reads (auth_exhausted trials) =
      IsText "t" "auth" × IsText "status" "exhausted" × IsInt 0 max_safe_integer "trials" trials
  Reads (auth_lost since_ms drops) =
      IsText "t" "auth"
      × IsText "status" "lost"
      × IsIntIfSome 0 max_safe_integer "sinceMs" since_ms
      × IsIntIfSome 0 max_safe_integer "drops" drops
  Reads (index i) = IsText "t" "index" × IsInt 0 srtp_index_max "index" i
  Reads producing = IsText "t" "producing"
  Reads (stopped i) = IsText "t" "stopped" × IsIntIfSome 0 srtp_index_max "index" i
  Reads (stats inputs input_bytes authenticated aus roc drops) =
      IsText "t" "stats"
      × IsInt 0 max_safe_integer "inputs" inputs
      × IsInt 0 max_safe_integer "inputBytes" input_bytes
      × IsInt 0 max_safe_integer "authenticated" authenticated
      × IsIntOr0 0 max_safe_integer "aus" aus
      × IsIntIfSome 0 uint32_max "roc" roc
      × IsIntOr0 0 max_safe_integer "drops" drops
  Reads (warning element message) =
      IsText "t" "warning" × IsTextIfSome "element" element × IsText "message" message
  Reads (error element message) =
      IsText "t" "error" × IsTextIfSome "element" element × IsText "message" message
  Reads (fatal reason message) =
      IsText "t" "fatal" × IsText "reason" reason × IsTextOrEmpty "message" message
  Reads eos = IsText "t" "eos"
  Reads (unparsed raw) = ⊥

  pub int-IsInt :
      (lo hi : ℕ) (name : String) (n : ℕ) → int lo hi (get name value) ≡ some n → IsInt lo hi name n
  int-IsInt lo hi name n = read (get name value)
    where
      read :
          (o : Option Json)
          → int lo hi o ≡ some n
          → (o ≡ some (number (natural n))) × (lo ≤ n) × (n ≤ hi)
      read (some (number (natural k))) e = ground arith
      read _ e = cc

  int-HasNoInt :
      (lo hi : ℕ) (name : String) → int lo hi (get name value) ≡ none → HasNoInt lo hi name
  int-HasNoInt lo hi name missing n (found, low, high) =
      let refused : (if leb lo n && leb n hi then some n else none) ≡ none =
        ap (int lo hi) (sym found) ∙ missing in
      absurd (ground (arith, refused, low, high))

  pub int-IsIntIfSome :
      (lo hi : ℕ) (name : String) → IsIntIfSome lo hi name (int lo hi (get name value))
  int-IsIntIfSome lo hi name = elim (Option-cases (int lo hi (get name value))) [
    | inl missing ↦ rw missing (int-HasNoInt lo hi name missing)
    | inr (n, found) ↦ rw found (int-IsInt lo hi name n found)
  ]

  pub int-IsIntOr0 :
      (lo hi : ℕ) (name : String) → IsIntOr0 lo hi name (get_or_else (int lo hi (get name value)) 0)
  int-IsIntOr0 lo hi name = elim (Option-cases (int lo hi (get name value))) [
    | inl missing ↦ rw missing (inr (refl, int-HasNoInt lo hi name missing))
    | inr (n, found) ↦ rw found (inl (int-IsInt lo hi name n found))
  ]

  pub str-IsText : (name s : String) → str (get name value) ≡ some s → IsText name s
  str-IsText name s = read (get name value)
    where
      read : (o : Option Json) → str o ≡ some s → o ≡ some (string s)
      read (some (string k)) e = cc
      read _ e = cc

  str-HasNoText : (name : String) → str (get name value) ≡ none → HasNoText name
  str-HasNoText name missing s found = let held : some s ≡ none = ap str (sym found) ∙ missing in cc

  pub str-IsTextIfSome : (name : String) → IsTextIfSome name (str (get name value))
  str-IsTextIfSome name = elim (Option-cases (str (get name value))) [
    | inl missing ↦ rw missing (str-HasNoText name missing)
    | inr (s, found) ↦ rw found (str-IsText name s found)
  ]

  pub str-IsTextOrEmpty :
      (name : String) → IsTextOrEmpty name (get_or_else (str (get name value)) "")
  str-IsTextOrEmpty name = elim (Option-cases (str (get name value))) [
    | inl missing ↦ rw missing (inr (refl, str-HasNoText name missing))
    | inr (s, found) ↦ rw found (inl (str-IsText name s found))
  ]
