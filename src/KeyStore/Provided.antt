-- ===== src/KeyStore/Provided.antt =====
-- Where the keys of the store come from, and what they are good for.
use video_thingy_rocks.Common.{
  ℕ, ◌+◌, ◌≡◌, refl, sym, ap, ◌∙◌, subst, ◌⊎◌, inl, inr, String, Bool, true, ◌&&◌, Option, none,
  some, List, [], ◌∷◌, ◌==◌, str_eq, str_eq_iff, get_or_else, PortMap, arith, Bool-cases, ==_iff,
}
use mathlib.Core.Option.{some-injective}
use video_thingy_rocks.HelperProtocol.Json.{
  Json, Fields, null, boolean, number, string, array, object, get, uint32, str,
}
use video_thingy_rocks.Supervisor.{SrtpPortKey}
use video_thingy_rocks.KeyStore.{
  srtp_generation_base, supported_srtp_cipher, supported_srtp_auth, Parameter, ParamValue,
  is_valid_srtp_key_hex, is_supported, is_stored_srtp_key, stored, version_of, ParamsByName,
  is_secure_string, add_parameter, params_by_name,
}
use video_thingy_rocks.KeyStore.Load.{
  KeyStoreConfig, with_stored, with_json, load_key, set_key, load_keys,
}

module _ {A : Type 0} (P : A → Type 0) where
  abbrev pub Any : List A → Type 0
  Any [] = ⊥
  Any (x ∷ xs) = P x ⊎ Any xs

module _ {A : Type 0} (P Q : A → Type 0) where
  Any-map : (xs : List A) → ((x : A) → P x → Q x) → Any P xs → Any Q xs
  Any-map [] f h = h
  Any-map (x ∷ xs) f (inl p) = inl (f x p)
  Any-map (x ∷ xs) f (inr h) = inr (Any-map xs f h)

-- A parameter that gives the value under the name.
record Names (name : String) (v : ParamValue) (p : Parameter) : Type 0 where
  named : p.name ≡ some name
  held : p.value ≡ some v.value
  secure : p.kind ≡ some "SecureString"
  version : v.version ≡ version_of p.version

is_secure_string-eq : (o : Option String) → is_secure_string o ≡ true → o ≡ some "SecureString"
is_secure_string-eq none h = cc
is_secure_string-eq (some t) h = ap some ((str_eq_iff t "SecureString").0 h)

add_parameter-Names :
    (p : Parameter) (m : ParamsByName) (name : String) (v : ParamValue) (n o : Option String)
    → p.name ≡ n
    → p.value ≡ o
    → add_parameter p n o m name ≡ some v
    → Names name v p ⊎ (m name ≡ some v)
unfolding add_parameter
add_parameter-Names p m name v none o e f h = inr h
add_parameter-Names p m name v (some n) none e f h = inr h
add_parameter-Names p m name v (some n) (some o) e f h =
    elim (Bool-cases (is_secure_string p.kind)) [
      | inr plain ↦ inr (simp plain at h)
      | inl secure ↦ elim (Bool-cases (str_eq name n)) [
        | inr other ↦ inr (simp (secure, other) at h)
        | inl same ↦
            let found = some-injective _ _ (simp (secure, same) at h) in
            inl (record {
              named = e ∙ ap some (sym ((str_eq_iff name n).0 same));
              held = f ∙ ap (λ (u : ParamValue). some u.value) found;
              secure = is_secure_string-eq p.kind secure;
              version = sym (ap (λ (u : ParamValue). u.version) found);
            })
      ]
    ]

params_by_name-Names :
    (ps : List Parameter) (m : ParamsByName) (name : String) (v : ParamValue)
    → params_by_name ps m name ≡ some v
    → Any (Names name v) ps ⊎ (m name ≡ some v)
unfolding params_by_name
params_by_name-Names [] m name v h = inr h
params_by_name-Names (p ∷ ps) m name v h =
    elim (params_by_name-Names ps (add_parameter p p.name p.value m) name v h) [
      | inl later ↦ inl (inr later)
      | inr here ↦ elim (add_parameter-Names p m name v p.name p.value refl refl here) [
        | inl found ↦ inl (inl found)
        | inr before ↦ inr before
      ]
    ]

supported-text :
    (s : String) (o : Option Json) → is_supported s o ≡ true → get_or_else (str o) s ≡ s
supported-text s none h = refl
supported-text s (some (string t)) h = (str_eq_iff t s).0 h
supported-text s (some null) h = absurd cc
supported-text s (some (boolean b)) h = absurd cc
supported-text s (some (number n)) h = absurd cc
supported-text s (some (array a)) h = absurd cc
supported-text s (some (object v)) h = absurd cc

both : (a b : Bool) → (a && b) ≡ true → (a ≡ true) × (b ≡ true)
both a b h = ground arith

module _ (c : KeyStoreConfig) where
  -- What the text of a parameter says of a key that was made of it.
  pub record Content (v : ParamValue) (k : SrtpPortKey) : Type 0 where
    pub fields : Fields
    pub parsed : c.json_parse v.value ≡ some (object fields)
    pub key : str (get "key" fields) ≡ some k.key_hex
    pub ssrc : uint32 (get "ssrc" fields) ≡ some k.ssrc
    pub hex : is_valid_srtp_key_hex (c.codes k.key_hex) ≡ true
    pub cipher : k.cipher ≡ supported_srtp_cipher
    pub auth : k.auth ≡ supported_srtp_auth
    pub fingerprint : k.key_fingerprint ≡ c.key_fingerprint k.key_hex
    pub generation : k.generation ≡ srtp_generation_base + v.version

  stored-Content :
      (v : ParamValue) (k : SrtpPortKey) (fs : Fields)
      → c.json_parse v.value ≡ some (object fs)
      → (key : Option String) (ssrc : Option ℕ) → str (get "key" fs) ≡ key
      → uint32 (get "ssrc" fs) ≡ ssrc
      → with_stored c v.version (stored fs key ssrc) ≡ some k
      → Content v k
  unfolding with_stored
  stored-Content v k fs parsed none o e f h = absurd cc
  stored-Content v k fs parsed (some key) none e f h = absurd cc
  stored-Content v k fs parsed (some key) (some ssrc) e f h =
      elim (Bool-cases (
        is_supported supported_srtp_cipher (get "cipher" fs)
        && is_supported supported_srtp_auth (get "auth" fs))) [
          | inr other ↦ (let h' = simp other at h in absurd cc)
          | inl suite ↦ elim (Bool-cases (is_valid_srtp_key_hex (c.codes key))) [
            | inr short ↦ (let h' = simp (suite, short) at h in absurd cc)
            | inl hex ↦
                let found = some-injective _ _ (simp (suite, hex) at h) in
                let (cipher, auth) = both _ _ suite in
                let same = ap (λ (q : SrtpPortKey). q.key_hex) found in
                record {
                  fields = fs;
                  parsed = parsed;
                  key = e ∙ ap some same;
                  ssrc = f ∙ ap (λ (q : SrtpPortKey). some q.ssrc) found;
                  hex = subst (λ (q : String). is_valid_srtp_key_hex (c.codes q) ≡ true) same hex;
                  cipher =
                      sym (ap (λ (q : SrtpPortKey). q.cipher) found)
                      ∙ supported-text supported_srtp_cipher (get "cipher" fs) cipher;
                  auth =
                      sym (ap (λ (q : SrtpPortKey). q.auth) found)
                      ∙ supported-text supported_srtp_auth (get "auth" fs) auth;
                  fingerprint =
                      sym (ap (λ (q : SrtpPortKey). q.key_fingerprint) found)
                      ∙ ap c.key_fingerprint same;
                  generation = sym (ap (λ (q : SrtpPortKey). q.generation) found);
                }
          ]
        ]

  with_json-Content :
      (v : ParamValue) (k : SrtpPortKey) (j : Option Json)
      → c.json_parse v.value ≡ j
      → with_json c v.version j ≡ some k
      → Content v k
  unfolding with_json with_stored is_stored_srtp_key
  with_json-Content v k none e h = absurd cc
  with_json-Content v k (some (object fs)) e h =
      stored-Content v k fs e (str (get "key" fs)) (uint32 (get "ssrc" fs)) refl refl h
  with_json-Content v k (some null) e h = absurd cc
  with_json-Content v k (some (boolean b)) e h = absurd cc
  with_json-Content v k (some (number n)) e h = absurd cc
  with_json-Content v k (some (string t)) e h = absurd cc
  with_json-Content v k (some (array a)) e h = absurd cc

  -- A parameter of the answer that provides a key for the port: a `SecureString` under the port's
  -- name.
  pub record Provides (port : ℕ) (k : SrtpPortKey) (p : Parameter) : Type 0 where
    pub named : p.name ≡ some (c.parameter_name_for_port port)
    pub secure : p.kind ≡ some "SecureString"
    pub value : ParamValue
    pub held : p.value ≡ some value.value
    pub version : value.version ≡ version_of p.version
    pub content : Content value k

  load_key-Provides :
      (ps : List Parameter) (port : ℕ) (k : SrtpPortKey) (o : Option ParamValue)
      → params_by_name ps (λ n. none) (c.parameter_name_for_port port) ≡ o
      → load_key c o ≡ some k
      → Any (Provides port k) ps
  unfolding load_key
  load_key-Provides ps port k none e h = absurd cc
  load_key-Provides ps port k (some v) e h =
      elim (params_by_name-Names ps (λ n. none) (c.parameter_name_for_port port) v e) [
        | inr empty ↦ absurd cc
        | inl found ↦
            let content = with_json-Content v k (c.json_parse v.value) refl h in
            Any-map (Names (c.parameter_name_for_port port) v) (Provides port k) ps
              (λ p names. record {
                named = names.named;
                secure = names.secure;
                value = v;
                held = names.held;
                version = names.version;
                content = content;
              })
              found
      ]

  set_key-cases :
      (port j : ℕ) (o : Option SrtpPortKey) (k : SrtpPortKey) (keys : PortMap SrtpPortKey)
      → set_key c port o keys j ≡ some k
      → ((j ≡ port) × (o ≡ some k)) ⊎ (keys j ≡ some k)
  set_key-cases port j none k keys h = inr h
  set_key-cases port j (some new) k keys h = elim (Bool-cases (j == port)) [
    | inl e ↦ inl ((==_iff j port).0 e, simp e at h)
    | inr e ↦ inr (simp e at h)
  ]

  -- After the answer to a request: the key of a port is the one it had before, or it is provided by a
  -- parameter of the answer, a `SecureString` under the port's name. It then has 60 hexadecimal digits,
  -- the supported suite, the SSRC of the parameter's text, and the base plus the parameter's version as
  -- its generation.
  pub load_keys-Provided :
      (ps : List Parameter) (ports : List ℕ) (keys : PortMap SrtpPortKey) (j : ℕ) (k : SrtpPortKey)
      → load_keys c (params_by_name ps (λ n. none)) ports keys j ≡ some k
      → Any (Provides j k) ps ⊎ (keys j ≡ some k)
  unfolding load_keys
  load_keys-Provided ps [] keys j k h = inr h
  load_keys-Provided ps (port ∷ ports) keys j k h =
      let value = params_by_name ps (λ n. none) (c.parameter_name_for_port port) in
      elim (load_keys-Provided ps ports (set_key c port (load_key c value) keys) j k h) [
        | inl later ↦ inl later
        | inr now ↦ elim (set_key-cases port j (load_key c value) k keys now) [
          | inr before ↦ inr before
          | inl (same, made) ↦ inl (
              subst (λ (q : ℕ). Any (Provides q k) ps) (sym same)
                (load_key-Provides ps port k value refl made))
        ]
      ]
