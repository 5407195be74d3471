-- ===== src/ChildProcessExit/Gone.antt =====
-- The call returns when the child is gone, and only then.
use video_thingy_rocks.Common.{
  ℕ, zero, suc, ◌≡◌, refl, sym, ap, Bool, true, false, Option, none, some, List, [], ◌∷◌,
  if◌then◌else◌,
}
use mathlib.Core.Option.{some-injective}
use video_thingy_rocks.ChildProcessExit.{
  Happening, exits, exit_event, error_event, passes, EndChildProcessOptions, Wait, watch,
  wait_for_exit, Ended, after_kill, after_term, terminate, after_drain, drain, end_child_process,
}

-- Node emits `exit` once the exit fields are set.
abbrev pub Orderly : Bool → List Happening → Type 0
Orderly has_exited [] = Unit
Orderly has_exited (exits ∷ hs) = Orderly true hs
Orderly has_exited (exit_event ∷ hs) = (has_exited ≡ true) × Orderly has_exited hs
Orderly has_exited (error_event ∷ hs) = Orderly has_exited hs
Orderly has_exited (passes ∷ hs) = Orderly has_exited hs

-- A wait that saw the child go ended with the child exited; any other leaves the order as it was.
abbrev Sound : Option Wait → Type 0
Sound none = Unit
Sound (some w) = (w.gone ≡ true → w.has_exited ≡ true) × Orderly w.has_exited w.rest

watch-Sound :
    (ms : Option ℕ) (b : Bool) (hs : List Happening) → Orderly b hs → Sound (watch ms b hs)
unfolding watch
watch-Sound ms b [] h = tt
watch-Sound ms b (exits ∷ hs) h = watch-Sound ms true hs h
watch-Sound ms b (exit_event ∷ hs) (e, h) = ((λ g. e), h)
watch-Sound ms true (error_event ∷ hs) h = ((λ g. refl), h)
watch-Sound ms false (error_event ∷ hs) h = watch-Sound ms false hs h
watch-Sound none b (passes ∷ hs) h = watch-Sound none b hs h
watch-Sound (some zero) b (passes ∷ hs) h = ((λ g. cc), h)
watch-Sound (some (suc n)) b (passes ∷ hs) h = watch-Sound (some n) b hs h

wait_for_exit-Sound :
    (ms : Option ℕ) (b : Bool) (hs : List Happening) → Orderly b hs → Sound (wait_for_exit ms b hs)
unfolding wait_for_exit
wait_for_exit-Sound ms true hs h = ((λ g. refl), h)
wait_for_exit-Sound ms false hs h = watch-Sound ms false hs h

-- A wait without a deadline ends only by seeing the child go.
watch-gone : (b : Bool) (hs : List Happening) (w : Wait) → watch none b hs ≡ some w → w.gone ≡ true
unfolding watch
watch-gone b [] w e = cc
watch-gone b (exits ∷ hs) w e = watch-gone true hs w e
watch-gone b (exit_event ∷ hs) w e = ap (λ (v : Wait). v.gone) (sym (some-injective _ _ e))
watch-gone true (error_event ∷ hs) w e = ap (λ (v : Wait). v.gone) (sym (some-injective _ _ e))
watch-gone false (error_event ∷ hs) w e = watch-gone false hs w e
watch-gone b (passes ∷ hs) w e = watch-gone b hs w e

pub wait-gone :
    (b : Bool) (hs : List Happening) (w : Wait) → wait_for_exit none b hs ≡ some w → w.gone ≡ true
unfolding wait_for_exit
wait-gone true hs w e = ap (λ (v : Wait). v.gone) (sym (some-injective _ _ e))
wait-gone false hs w e = watch-gone false hs w e

abbrev pub IsGone : Option Ended → Type 0
IsGone none = Unit
IsGone (some e) = e.has_exited ≡ true

if-IsGone :
    (b : Bool) (x y : Option Ended)
    → (b ≡ true → IsGone x)
    → (b ≡ false → IsGone y)
    → IsGone (if b then x else y)
if-IsGone true x y h k = h refl
if-IsGone false x y h k = k refl

after_kill-IsGone :
    (o : Option Wait) → Sound o → ((w : Wait) → o ≡ some w → w.gone ≡ true) → IsGone (after_kill o)
unfolding after_kill
after_kill-IsGone none h g = tt
after_kill-IsGone (some w) (h, k) g = h (g w refl)

after_term-IsGone : (o : Option Wait) → Sound o → IsGone (after_term o)
unfolding after_term
after_term-IsGone none h = tt
after_term-IsGone (some w) (h, k) = if-IsGone w.gone _ _ h (λ e.
    after_kill-IsGone (wait_for_exit none w.has_exited w.rest)
      (wait_for_exit-Sound none w.has_exited w.rest k) (wait-gone w.has_exited w.rest))

terminate-IsGone :
    (options : EndChildProcessOptions) (b : Bool) (hs : List Happening)
    → Orderly b hs
    → IsGone (terminate options b hs)
unfolding terminate
terminate-IsGone options b hs h =
    after_term-IsGone (wait_for_exit (some options.sigkill_after_ms) b hs)
      (wait_for_exit-Sound (some options.sigkill_after_ms) b hs h)

after_drain-IsGone :
    (options : EndChildProcessOptions) (o : Option Wait) → Sound o → IsGone (after_drain options o)
unfolding after_drain
after_drain-IsGone options none h = tt
after_drain-IsGone options (some w) (h, k) =
    if-IsGone w.gone _ _ h (λ e. terminate-IsGone options w.has_exited w.rest k)

drain-IsGone :
    (options : EndChildProcessOptions) (ms : Option ℕ) (hs : List Happening)
    → Orderly false hs
    → IsGone (drain options ms hs)
unfolding drain
drain-IsGone options none hs h = terminate-IsGone options false hs h
drain-IsGone options (some ms) hs h =
    after_drain-IsGone options (wait_for_exit (some ms) false hs)
      (wait_for_exit-Sound (some ms) false hs h)

-- Whatever happens, with `exit` only once the exit fields are set: if the call has returned, the child
-- has exited.
pub end_child_process-IsGone :
    (options : EndChildProcessOptions) (b : Bool) (hs : List Happening)
    → Orderly b hs
    → IsGone (end_child_process options b hs)
unfolding end_child_process
end_child_process-IsGone options true hs h = refl
end_child_process-IsGone options false hs h = drain-IsGone options options.drain_ms hs h
