-- ===== src/HelperProtocol/Parse/Reads.antt =====
-- What a parsed frame says of the JSON object that it was read from.
use video_thingy_rocks.Common.{
  ◌∙◌, ℕ, ◌≡◌, ◌⊎◌, inl, inr, refl, String, Bool, true, false, Option, none, some, List, take, ap,
  get_or_else, srtp_index_max, max_safe_integer, Option-cases,
}
use video_thingy_rocks.HelperProtocol.{SrtpHelperMessage, unparsed, text, overlong}
use video_thingy_rocks.HelperProtocol.Json.{Json, object, Fields, get, uint16_max, uint32_max, str}
use video_thingy_rocks.HelperProtocol.Parse.{
  parse_ready, parse_searching, parse_auth, parse_index, parse_stats, parse_warning, parse_error,
  parse_fatal, parse_fields, parse_value, parse_message,
}
use video_thingy_rocks.HelperProtocol.Parse.Meaning.{
  IsText, Reads, int-IsInt, int-IsIntIfSome, int-IsIntOr0, str-IsText, str-IsTextIfSome,
  str-IsTextOrEmpty,
}
use video_thingy_rocks.HelperProtocol.Parse.Ensures.{
  Ensures, none-Ensures, some-Ensures, bind-Ensures, if-Ensures,
}

module _ (value : Fields) where
  parse_ready-Reads : IsText value "t" "ready" → Ensures (Reads value) (parse_ready value)
  unfolding parse_ready
  parse_ready-Reads tag = bind-Ensures λ port p. bind-Ensures λ v q. some-Ensures (
    tag,
    int-IsInt value 0 max_safe_integer "v" v q,
    int-IsInt value 1 65535 "port" port p,
    int-IsIntIfSome value 0 max_safe_integer "pid",
  )

  parse_searching-Reads :
      IsText value "t" "searching" → Ensures (Reads value) (parse_searching value)
  unfolding parse_searching
  parse_searching-Reads tag = bind-Ensures λ candidate p. bind-Ensures λ trial q. some-Ensures (
    tag,
    int-IsInt value 0 uint32_max "candidate" candidate p,
    int-IsInt value 0 max_safe_integer "trial" trial q,
  )

  parse_auth-Reads :
      (status : Option String)
      → IsText value "t" "auth"
      → ((s : String) → status ≡ some s → IsText value "status" s)
      → Ensures (Reads value) (parse_auth status value)
  unfolding parse_auth
  parse_auth-Reads none tag is = none-Ensures
  parse_auth-Reads (some status) tag is =
      if-Ensures status "ok"
        (λ e. bind-Ensures λ roc p. some-Ensures (
          tag,
          is "ok" (ap some e),
          refl,
          int-IsInt value 0 uint32_max "roc" roc p,
          int-IsIntIfSome value 0 uint16_max "seq",
          int-IsIntIfSome value 0 uint32_max "candidate",
          int-IsIntIfSome value 0 max_safe_integer "trials",
          int-IsIntIfSome value 0 max_safe_integer "authenticated",
        ))
        (if-Ensures status "fail"
          (λ e. bind-Ensures λ candidate p. some-Ensures (
            tag,
            is "fail" (ap some e),
            int-IsInt value 0 uint32_max "candidate" candidate p,
            int-IsIntIfSome value 0 max_safe_integer "inputs",
            int-IsIntIfSome value 0 max_safe_integer "drops",
            int-IsIntIfSome value 0 uint32_max "searchFrom",
          ))
          (if-Ensures status "exhausted"
            (λ e. bind-Ensures λ trials p. some-Ensures (
              tag,
              is "exhausted" (ap some e),
              int-IsInt value 0 max_safe_integer "trials" trials p,
            ))
            (if-Ensures status "lost"
              (λ e. some-Ensures (
                tag,
                is "lost" (ap some e),
                int-IsIntIfSome value 0 max_safe_integer "sinceMs",
                int-IsIntIfSome value 0 max_safe_integer "drops",
              ))
              none-Ensures)))

  parse_index-Reads : IsText value "t" "index" → Ensures (Reads value) (parse_index value)
  unfolding parse_index
  parse_index-Reads tag =
      bind-Ensures λ i p. some-Ensures (tag, int-IsInt value 0 srtp_index_max "index" i p)

  parse_stats-Reads : IsText value "t" "stats" → Ensures (Reads value) (parse_stats value)
  unfolding parse_stats
  parse_stats-Reads tag = bind-Ensures λ inputs p. bind-Ensures λ input_bytes q.
      bind-Ensures λ authenticated r. some-Ensures (
        tag,
        int-IsInt value 0 max_safe_integer "inputs" inputs p,
        int-IsInt value 0 max_safe_integer "inputBytes" input_bytes q,
        int-IsInt value 0 max_safe_integer "authenticated" authenticated r,
        int-IsIntOr0 value 0 max_safe_integer "aus",
        int-IsIntIfSome value 0 uint32_max "roc",
        int-IsIntOr0 value 0 max_safe_integer "drops",
      )

  parse_warning-Reads : IsText value "t" "warning" → Ensures (Reads value) (parse_warning value)
  unfolding parse_warning
  parse_warning-Reads tag =
      bind-Ensures
        λ m p. some-Ensures (tag, str-IsTextIfSome value "element", str-IsText value "message" m p)

  parse_error-Reads : IsText value "t" "error" → Ensures (Reads value) (parse_error value)
  unfolding parse_error
  parse_error-Reads tag =
      bind-Ensures
        λ m p. some-Ensures (tag, str-IsTextIfSome value "element", str-IsText value "message" m p)

  parse_fatal-Reads : IsText value "t" "fatal" → Ensures (Reads value) (parse_fatal value)
  unfolding parse_fatal
  parse_fatal-Reads tag =
      bind-Ensures
        λ r p. some-Ensures (tag, str-IsText value "reason" r p, str-IsTextOrEmpty value "message")

  parse_text-Reads :
      (t : String)
      → ((s : String) → t ≡ s → IsText value "t" s)
      → Ensures (Reads value) (parse_fields (some t) value)
  unfolding parse_fields
  parse_text-Reads t is =
      if-Ensures t "ready" (λ e. parse_ready-Reads (is _ e))
        (if-Ensures t "searching" (λ e. parse_searching-Reads (is _ e))
          (if-Ensures t "auth"
            (λ e. parse_auth-Reads (str (get "status" value)) (is _ e) (str-IsText value "status"))
            (if-Ensures t "index" (λ e. parse_index-Reads (is _ e))
              (if-Ensures t "producing" (λ e. some-Ensures (is _ e))
                (if-Ensures t "stopped"
                  (λ e. some-Ensures (is _ e, int-IsIntIfSome value 0 srtp_index_max "index"))
                  (if-Ensures t "stats" (λ e. parse_stats-Reads (is _ e))
                    (if-Ensures t "warning" (λ e. parse_warning-Reads (is _ e))
                      (if-Ensures t "error" (λ e. parse_error-Reads (is _ e))
                        (if-Ensures t "fatal" (λ e. parse_fatal-Reads (is _ e))
                          (if-Ensures t "eos" (λ e. some-Ensures (is _ e)) none-Ensures))))))))))

  parse_fields-Reads : Ensures (Reads value) (parse_fields (str (get "t" value)) value)
  unfolding parse_fields
  parse_fields-Reads = elim (Option-cases (str (get "t" value))) [
    | inl missing ↦ rw missing none-Ensures
    | inr (t, found) ↦
        rw found (parse_text-Reads t (λ s e. str-IsText value "t" s (found ∙ ap some e)))
  ]

-- What a frame that is not `unparsed` says of the line it was parsed from.
abbrev pub SaysOf : Option Json → List ℕ → SrtpHelperMessage → Type 0
SaysOf parsed line m =
    (m ≡ unparsed (text (take 200 line)))
    ⊎ ((value : Fields) × (parsed ≡ some (object value)) × Reads value m)

-- Every line is read as `unparsed`, with its first 200 characters, or as a frame whose tag, status
-- and fields are those of the JSON object that the line holds: each number is the integer of its own
-- field and in that field's range, each text that of its own field, and an optional field is left
-- out, or 0 or empty where the frame has a default, exactly if the object has none in range.
pub parse_message-Reads :
    (json_parse : List ℕ → Option Json) (line : List ℕ)
    → SaysOf (json_parse line) line (parse_message json_parse line)
unfolding parse_message
parse_message-Reads json_parse line = read (json_parse line)
  where
    read :
        (o : Option Json)
        → SaysOf o line (get_or_else (parse_value o) (unparsed (text (take 200 line))))
    read none = inl refl
    read (some (object value)) = elim (Option-cases (parse_fields (str (get "t" value)) value)) [
      | inl refused ↦ rw refused (inl refl)
      | inr (m, found) ↦ rw found (inr (value, refl, (parse_fields-Reads value).at m found))
    ]
    read (some _) = inl refl

-- A report of a discarded line, which no line is parsed as.
unfoldable pub is_report : SrtpHelperMessage → Bool
is_report (unparsed (overlong n)) = true
is_report _ = false

pub parse_message-is_report :
    (json_parse : List ℕ → Option Json) (line : List ℕ)
    → is_report (parse_message json_parse line) ≡ false
unfolding is_report
parse_message-is_report json_parse line =
    go (parse_message json_parse line) (parse_message-Reads json_parse line)
  where
    go : (m : SrtpHelperMessage) → SaysOf (json_parse line) line m → is_report m ≡ false
    go (unparsed (text t)) h = refl
    go (unparsed (overlong n)) (inl e) = cc
    go (unparsed (overlong n)) (inr (value, e, h)) = elim h [ ]
    go _ h = refl
