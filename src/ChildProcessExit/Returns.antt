-- ===== src/ChildProcessExit/Returns.antt =====
-- When the call returns, and with which signals, by the times of the child's exit.
use video_thingy_rocks.Common.{
  ℕ, zero, suc, ◌+◌, ◌≤◌, ◌<◌, ◌≡◌, refl, sym, ap, ◌∙◌, Bool, true, false, ◌||◌, Option, none, some,
  List, [], ◌∷◌, leb, if◌then◌else◌, arith,
}
use video_thingy_rocks.ChildProcessExit.{
  Happening, exits, exit_event, error_event, passes, Signal, sigterm, sigkill,
  EndChildProcessOptions, Wait, watch, wait_for_exit, Ended, after_kill, after_term, terminate,
  after_drain, drain, end_child_process,
}

abbrev pub Announced : List Happening → Type 0
Announced [] = ⊥
Announced (exits ∷ hs) = Announced hs
Announced (exit_event ∷ hs) = Unit
Announced (error_event ∷ hs) = Announced hs
Announced (passes ∷ hs) = Announced hs

-- The milliseconds before the exit is announced: by `exit`, or by an `error` once the child has exited.
unfoldable pub announced_after : Bool → List Happening → ℕ
announced_after b [] = 0
announced_after b (exits ∷ hs) = announced_after true hs
announced_after b (exit_event ∷ hs) = 0
announced_after true (error_event ∷ hs) = 0
announced_after false (error_event ∷ hs) = announced_after false hs
announced_after b (passes ∷ hs) = suc (announced_after b hs)

-- Whether the child exits in the first `n` milliseconds.
unfoldable pub exits_within : ℕ → List Happening → Bool
exits_within n [] = false
exits_within n (exits ∷ hs) = true
exits_within n (exit_event ∷ hs) = exits_within n hs
exits_within n (error_event ∷ hs) = exits_within n hs
exits_within zero (passes ∷ hs) = false
exits_within (suc n) (passes ∷ hs) = exits_within n hs

-- What a wait of `ms` for a child comes to: it is announced in that time, or it is not and the rest
-- of its announcement is still to come.
data Watched (ms : ℕ) (b : Bool) (hs : List Happening) (o : Option Wait) : Type 0 where
  seen : (w : Wait) → o ≡ some w → w.gone ≡ true → announced_after b hs ≤ ms → Watched ms b hs o
  timed_out :
      (w : Wait)
      → o ≡ some w
      → w.gone ≡ false
      → w.has_exited ≡ (b || exits_within ms hs)
      → Announced w.rest
      → announced_after b hs ≡ suc (ms + announced_after w.has_exited w.rest)
      → Watched ms b hs o

exits-Watched :
    (ms : ℕ) (b : Bool) (hs : List Happening) (o : Option Wait)
    → Watched ms true hs o
    → Watched ms b (exits ∷ hs) o
unfolding announced_after exits_within
exits-Watched ms b hs o (seen w e gone soon) = seen w e gone soon
exits-Watched ms b hs o (timed_out w e gone exited h late) =
    timed_out w e gone (exited ∙ ground arith) h late

error-Watched :
    (ms : ℕ) (hs : List Happening) (o : Option Wait)
    → Watched ms false hs o
    → Watched ms false (error_event ∷ hs) o
unfolding announced_after exits_within
error-Watched ms hs o (seen w e gone soon) = seen w e gone soon
error-Watched ms hs o (timed_out w e gone exited h late) = timed_out w e gone exited h late

passes-Watched :
    (n : ℕ) (b : Bool) (hs : List Happening) (o : Option Wait)
    → Watched n b hs o
    → Watched (suc n) b (passes ∷ hs) o
unfolding announced_after exits_within
passes-Watched n b hs o (seen w e gone soon) = seen w e gone (omega (arith, soon))
passes-Watched n b hs o (timed_out w e gone exited h late) =
    timed_out w e gone exited h (omega (arith, late))

watch-Watched :
    (ms : ℕ) (b : Bool) (hs : List Happening)
    → Announced hs
    → Watched ms b hs (watch (some ms) b hs)
unfolding watch announced_after exits_within
watch-Watched ms b [] h = elim h [ ]
watch-Watched ms b (exits ∷ hs) h = exits-Watched ms b hs _ (watch-Watched ms true hs h)
watch-Watched ms b (exit_event ∷ hs) h = seen _ refl refl (omega arith)
watch-Watched ms true (error_event ∷ hs) h = seen _ refl refl (omega arith)
watch-Watched ms false (error_event ∷ hs) h = error-Watched ms hs _ (watch-Watched ms false hs h)
watch-Watched zero b (passes ∷ hs) h = timed_out _ refl refl (ground arith) h (omega arith)
watch-Watched (suc n) b (passes ∷ hs) h = passes-Watched n b hs _ (watch-Watched n b hs h)

-- The last wait, which has no time-out.
watch-ends :
    (b : Bool) (hs : List Happening) → Announced hs → (w : Wait) × (watch none b hs ≡ some w)
unfolding watch
watch-ends b [] h = elim h [ ]
watch-ends b (exits ∷ hs) h = watch-ends true hs h
watch-ends b (exit_event ∷ hs) h = (_, refl)
watch-ends true (error_event ∷ hs) h = (_, refl)
watch-ends false (error_event ∷ hs) h = watch-ends false hs h
watch-ends b (passes ∷ hs) h = watch-ends b hs h

wait_for_exit-ends :
    (b : Bool) (hs : List Happening)
    → Announced hs
    → (w : Wait) × (wait_for_exit none b hs ≡ some w)
unfolding wait_for_exit
wait_for_exit-ends true hs h = (_, refl)
wait_for_exit-ends false hs h = watch-ends false hs h

-- `SIGTERM`, and `SIGKILL` too where that did not do.
unfoldable pub escalation : Bool → List Signal
escalation true = sigterm ∷ []
escalation false = sigterm ∷ sigkill ∷ []

-- The signals for a child that has not exited: none if its exit is announced in the drain; `SIGTERM`
-- alone if it exits in the drain, or is announced before the time for `SIGKILL` is over too.
unfoldable pub due_after : Option ℕ → ℕ → List Happening → List Signal
due_after none sigkill_after_ms hs = escalation (leb (announced_after false hs) sigkill_after_ms)
due_after (some drain_ms) sigkill_after_ms hs =
    if leb (announced_after false hs) drain_ms
    then []
    else escalation (
        exits_within drain_ms hs
        || leb (announced_after false hs) (suc drain_ms + sigkill_after_ms))

unfoldable pub signals_due : EndChildProcessOptions → Bool → List Happening → List Signal
signals_due options true hs = []
signals_due options false hs = due_after options.drain_ms options.sigkill_after_ms hs

abbrev pub Returns : Option Ended → List Signal → Type 0
Returns o signals = (e : Ended) × (o ≡ some e) × (e.signals ≡ signals)

after_kill-Returns :
    (o : Option Wait)
    → ((w : Wait) × (o ≡ some w))
    → Returns (after_kill o) (sigterm ∷ sigkill ∷ [])
unfolding after_kill
after_kill-Returns o (w, e) = rw (e, after_kill) (_, refl, refl)

le→leb : (a b : ℕ) → a ≤ b → leb a b ≡ true
le→leb a b h = ground arith

gt→leb : (a b : ℕ) → b < a → leb a b ≡ false
gt→leb a b h = ground arith

-- A result for signals that are equal.
for_equal :
    (o : Option Ended) (signals due : List Signal)
    → signals ≡ due
    → Returns o signals
    → Returns o due
for_equal o signals due same (e, found, sent) = (e, found, sent ∙ same)

after_term-Returns :
    (ms : ℕ) (hs : List Happening) (o : Option Wait)
    → Watched ms false hs o
    → Returns (after_term o) (escalation (leb (announced_after false hs) ms))
unfolding after_term escalation
after_term-Returns ms hs o (seen w e gone soon) =
    for_equal _ (sigterm ∷ []) _ (ap escalation (sym (le→leb (announced_after false hs) ms soon)))
      (rw (e, after_term, gone) (_, refl, refl))
after_term-Returns ms hs o (timed_out w e gone exited h late) =
    for_equal _ (sigterm ∷ sigkill ∷ []) _
      (ap escalation (sym (gt→leb (announced_after false hs) ms (omega (arith, late)))))
      (rw (e, after_term, gone)
        (after_kill-Returns (wait_for_exit none w.has_exited w.rest)
          (wait_for_exit-ends w.has_exited w.rest h)))

terminate-Returns :
    (options : EndChildProcessOptions) (b : Bool) (hs : List Happening)
    → Announced hs
    → Returns
        (terminate options b hs)
        (escalation (b || leb (announced_after b hs) options.sigkill_after_ms))
unfolding terminate wait_for_exit escalation after_term
terminate-Returns options true hs h = (_, refl, refl)
terminate-Returns options false hs h =
    after_term-Returns options.sigkill_after_ms hs _
      (watch-Watched options.sigkill_after_ms false hs h)

-- The time that is left after a drain of `ms`.
rest_due :
    (b : Bool) (announced rest ms sigkill_after_ms : ℕ)
    → announced ≡ suc (ms + rest)
    → (b || leb rest sigkill_after_ms) ≡ (b || leb announced (suc ms + sigkill_after_ms))
rest_due b announced rest ms sigkill_after_ms e = ground (arith, e)

-- The signals due, by whether the exit is announced in the drain.
drain_due :
    (ms sigkill_after_ms : ℕ) (hs : List Happening) (announced : Bool)
    → leb (announced_after false hs) ms ≡ announced
    → due_after (some ms) sigkill_after_ms hs ≡ (
        if announced
        then []
        else escalation
            (exits_within ms hs || leb (announced_after false hs) (suc ms + sigkill_after_ms)))
unfolding due_after
drain_due ms sigkill_after_ms hs announced e =
    ap
      (λ (b : Bool).
        if b
        then []
        else escalation
            (exits_within ms hs || leb (announced_after false hs) (suc ms + sigkill_after_ms)))
      e

after_drain-Returns :
    (options : EndChildProcessOptions) (ms : ℕ) (hs : List Happening) (o : Option Wait)
    → Watched ms false hs o
    → Returns (after_drain options o) (due_after (some ms) options.sigkill_after_ms hs)
unfolding after_drain
after_drain-Returns options ms hs o (seen w e gone soon) =
    for_equal _ [] _
      (sym
        (drain_due ms options.sigkill_after_ms hs true (le→leb (announced_after false hs) ms soon)))
      (rw (e, after_drain, gone) (_, refl, refl))
after_drain-Returns options ms hs o (timed_out w e gone exited h late) =
    for_equal _
      (escalation
        (w.has_exited || leb (announced_after w.has_exited w.rest) options.sigkill_after_ms))
      _
      (ap escalation (
          rest_due w.has_exited (announced_after false hs) (announced_after w.has_exited w.rest) ms
            options.sigkill_after_ms late
          ∙ ap
              (λ (b : Bool).
                b || leb (announced_after false hs) (suc ms + options.sigkill_after_ms))
              exited)
        ∙ sym (
            drain_due ms options.sigkill_after_ms hs false
              (gt→leb (announced_after false hs) ms (omega (arith, late)))))
      (rw (e, after_drain, gone) (terminate-Returns options w.has_exited w.rest h))

drain-Returns :
    (options : EndChildProcessOptions) (ms : Option ℕ) (hs : List Happening)
    → Announced hs
    → Returns (drain options ms hs) (due_after ms options.sigkill_after_ms hs)
unfolding drain due_after wait_for_exit
drain-Returns options none hs h = terminate-Returns options false hs h
drain-Returns options (some ms) hs h =
    after_drain-Returns options ms hs _ (watch-Watched ms false hs h)

-- If the child's exit is announced at some time, the call returns. It sent no signal to a child that
-- had exited, nor where the exit was announced within the drain; it sent `SIGTERM` alone where the
-- child exited in the drain, or was announced to have before the time for `SIGKILL` was over too, and
-- otherwise `SIGTERM` and after it `SIGKILL`.
pub end_child_process-Returns :
    (options : EndChildProcessOptions) (b : Bool) (hs : List Happening)
    → Announced hs
    → Returns (end_child_process options b hs) (signals_due options b hs)
unfolding end_child_process signals_due
end_child_process-Returns options true hs h = (_, refl, refl)
end_child_process-Returns options false hs h = drain-Returns options options.drain_ms hs h
