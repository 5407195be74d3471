-- ===== src/KeyStore/Requests.antt =====
-- What `loadPorts` asks the parameter store for.
use video_thingy_rocks.Common.{
  ℕ, zero, suc, ◌≤◌, ◌≡◌, refl, sym, ap, ◌∙◌, inl, inr, String, Option, some, List, [], ◌∷◌, ◌++◌,
  map, length, take, arith, All, PortMap, Option-cases,
}
use mathlib.Core.List.{append_assoc, append-nil}
use video_thingy_rocks.Supervisor.{SrtpPortKey}
use video_thingy_rocks.KeyStore.{ssm_get_parameters_max_names, Parameter}
use video_thingy_rocks.KeyStore.Load.{
  KeyStoreConfig, SsmParameterFetcher, drop, load_ports_chunk, load_ports_loop, load_ports,
}

-- A store that answers as it likes, and keeps the requests.
abbrev pub recorder : (List String → Option (List Parameter)) → SsmParameterFetcher
recorder answer = record {
  World = List (List String);
  get_parameters = λ names log. (answer names, log ++ names ∷ []);
}

pub flatten : List (List String) → List String
flatten [] = []
flatten (r ∷ rs) = r ++ flatten rs

take-drop :
    (f : ℕ → String) (n : ℕ) (xs : List ℕ) → map f (take n xs) ++ map f (drop n xs) ≡ map f xs
take-drop f zero xs = refl
take-drop f (suc n) [] = refl
take-drop f (suc n) (x ∷ xs) = ap (λ (ys : List String). f x ∷ ys) (take-drop f n xs)

length-drop : (n : ℕ) (x : ℕ) (xs : List ℕ) → length (drop (suc n) (x ∷ xs)) ≤ length xs
length-drop zero x xs = omega arith
length-drop (suc n) x [] = omega arith
length-drop (suc n) x (y ∷ xs) = omega (arith, length-drop n y xs)

length-take : (f : ℕ → String) (n : ℕ) (xs : List ℕ) → length (map f (take n xs)) ≤ n
length-take f zero xs = omega arith
length-take f (suc n) [] = omega arith
length-take f (suc n) (x ∷ xs) = omega (arith, length-take f n xs)

abbrev pub IsSmall : List String → Type 0
IsSmall request = (1 ≤ length request) × (length request ≤ ssm_get_parameters_max_names)

module _ (c : KeyStoreConfig) (answer : List String → Option (List Parameter)) where
  -- The requests that were added to the log.
  pub record Asked (ports : List ℕ) (log log' : List (List String)) : Type 0 where
    pub requests : List (List String)
    pub logged : log' ≡ log ++ requests
    pub complete : flatten requests ≡ map c.parameter_name_for_port ports
    pub small : All IsSmall requests

  load_ports_loop-Asked :
      (fuel : ℕ) (ports : List ℕ) (keys keys' : PortMap SrtpPortKey) (log : List (List String))
      → length ports ≤ fuel
      → (load_ports_loop c (recorder answer) fuel ports keys log).0 ≡ some keys'
      → Asked ports log (load_ports_loop c (recorder answer) fuel ports keys log).1
  unfolding load_ports_loop load_ports_chunk flatten
  load_ports_loop-Asked zero [] keys keys' log enough h = record {
    requests = [];
    logged = sym (append-nil log);
    complete = refl;
    small = tt;
  }
  load_ports_loop-Asked zero (p ∷ ports) keys keys' log enough h = absurd (omega (arith, enough))
  load_ports_loop-Asked (suc fuel) [] keys keys' log enough h = record {
    requests = [];
    logged = sym (append-nil log);
    complete = refl;
    small = tt;
  }
  load_ports_loop-Asked (suc fuel) (p ∷ ports) keys keys' log enough h =
      let chunk = map c.parameter_name_for_port (take 10 (p ∷ ports)) in
      elim (Option-cases (answer chunk)) [
        | inl threw ↦ (let h' = rw (threw, load_ports_loop) at h in absurd cc)
        | inr (ps, e) ↦
            let later =
              load_ports_loop-Asked fuel (drop 10 (p ∷ ports)) _ keys' (log ++ chunk ∷ [])
                (omega (arith, enough, length-drop 9 p ports)) (rw (e, load_ports_loop) at h) in
            rw (e, load_ports_loop)
              (record {
                requests = chunk ∷ later.requests;
                logged = later.logged ∙ append_assoc log (chunk ∷ []) later.requests;
                complete =
                    ap (λ (r : List String). chunk ++ r) later.complete
                    ∙ take-drop c.parameter_name_for_port 10 (p ∷ ports);
                small = (
                  (omega arith, length-take c.parameter_name_for_port 10 (p ∷ ports)),
                  later.small,
                );
              })
      ]

  -- When loading succeeds, whatever the store answers: the requests have from one to ten names each,
  -- and one after the other they name every port's parameter once, in the order of the ports.
  pub load_ports-Asked :
      (ports : List ℕ) (keys keys' : PortMap SrtpPortKey) (log : List (List String))
      → (load_ports c (recorder answer) ports keys log).0 ≡ some keys'
      → Asked ports log (load_ports c (recorder answer) ports keys log).1
  unfolding load_ports
  load_ports-Asked ports keys keys' log h =
      load_ports_loop-Asked (length ports) ports keys keys' log (omega arith) h
