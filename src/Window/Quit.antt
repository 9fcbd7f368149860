-- ===== src/Window/Quit.antt =====
-- When the loop over the messages ends.
use ntfw.Common.{ℕ, true, false, ◌≡◌, ◌≢◌, ◌↔◌, refl, ap, arith, inl, inr}
use ntfw.Common.{List, [], ◌∷◌, ◌++◌, none, some, ◌==◌, Option-cases}
use native.Mathlib.Decide.{ℕ_discrete}
use ntfw.Window.{create_dialog, load_configuration, set_waitable_timer}
use ntfw.Window.{Wait, Action, wm_quit, drain, last_message, message_loop, win_main}

-- The last of the messages that are fetched after one wait is `WM_QUIT`.
abbrev pub EndsInQuit : List ℕ → Type 0
EndsInQuit ms = (before : List ℕ) × (ms ≡ before ++ (wm_quit ∷ []))

-- Some wait brings such messages.
pub data Quits : List Wait → Type 0 where
  here : {w : Wait} {ws : List Wait} → EndsInQuit w.fetched → Quits (w ∷ ws)
  there : {w : Wait} {ws : List Wait} → Quits ws → Quits (w ∷ ws)

last_message-append :
    (before : List ℕ) (msg : ℕ) → last_message msg (before ++ (wm_quit ∷ [])) ≡ wm_quit
unfolding last_message
last_message-append [] msg = refl
last_message-append (m ∷ before) msg = last_message-append before m

EndsInQuit-last_message : (ms : List ℕ) (msg : ℕ) → EndsInQuit ms → last_message msg ms ≡ wm_quit
EndsInQuit-last_message ms msg (before, e) = rw e (last_message-append before msg)

ends_in_quit : (ms : List ℕ) (m : ℕ) → last_message m ms ≡ wm_quit → EndsInQuit (m ∷ ms)
unfolding last_message
ends_in_quit [] m e = ([], ap (λ x. x ∷ []) e)
ends_in_quit (m' ∷ ms) m e =
    let (before, e') = ends_in_quit ms m' e in (m ∷ before, ap (λ xs. m ∷ xs) e')

-- Messages that leave `WM_QUIT` behind end in it, unless there were none.
last_message-EndsInQuit :
    (ms : List ℕ) (msg : ℕ) → msg ≢ wm_quit → last_message msg ms ≡ wm_quit → EndsInQuit ms
unfolding last_message
last_message-EndsInQuit [] msg ne e = absurd (ne e)
last_message-EndsInQuit (m ∷ ms) msg ne e = ends_in_quit ms m e

-- The loop has left.
abbrev Leaves : ℕ → List Wait → Type 0
Leaves msg ws = (actions : List Action) × (message_loop msg ws ≡ some actions)

stop_at_once : (msg : ℕ) (ws : List Wait) → msg ≡ wm_quit → Leaves msg ws
unfolding message_loop
stop_at_once msg [] e = ([], ground arith)
stop_at_once msg (w ∷ ws) e = ([], ground arith)

module _ (w : Wait) (ws : List Wait) (msg : ℕ) (ne : msg ≢ wm_quit) where
  unequal : (msg == wm_quit) ≡ false
  unequal = ground arith

  stop_later : Leaves (last_message msg w.fetched) ws → Leaves msg (w ∷ ws)
  unfolding message_loop
  stop_later (actions, e) = (drain w.timer w.fetched ++ actions, rw (unequal, e) refl)

  stopped_later : Leaves msg (w ∷ ws) → Leaves (last_message msg w.fetched) ws
  unfolding message_loop
  stopped_later (actions, e) = elim (Option-cases (message_loop (last_message msg w.fetched) ws)) [
    | inl stays ↦ let e' : message_loop msg (w ∷ ws) ≡ none = rw (unequal, stays) refl in cc
    | inr (more, e') ↦ (more, e')
  ]

message_loop-Quits : (ws : List Wait) (msg : ℕ) → msg ≢ wm_quit → Leaves msg ws → Quits ws
unfolding message_loop
message_loop-Quits [] msg ne (actions, e) =
    let waits : message_loop msg [] ≡ none = ground arith in cc
message_loop-Quits (w ∷ ws) msg ne l = elim (ℕ_discrete (last_message msg w.fetched) wm_quit) [
  | yes e ↦ here (last_message-EndsInQuit w.fetched msg ne e)
  | no ne' ↦ there (message_loop-Quits ws _ ne' (stopped_later w ws msg ne l))
]

Quits-message_loop : (ws : List Wait) (msg : ℕ) → Quits ws → Leaves msg ws
Quits-message_loop [] msg q = elim q [ ]
Quits-message_loop (w ∷ ws) msg (here q) = elim (ℕ_discrete msg wm_quit) [
  | yes e ↦ stop_at_once msg (w ∷ ws) e
  | no ne ↦ stop_later w ws msg ne (stop_at_once _ ws (EndsInQuit-last_message w.fetched msg q))
]
Quits-message_loop (w ∷ ws) msg (there q) = elim (ℕ_discrete msg wm_quit) [
  | yes e ↦ stop_at_once msg (w ∷ ws) e
  | no ne ↦ stop_later w ws msg ne (Quits-message_loop ws _ q)
]

left_of_win_main :
    (ws : List Wait) (actions : List Action) → win_main true ws ≡ some actions → Leaves 0 ws
unfolding win_main
left_of_win_main ws actions e = elim (Option-cases (message_loop 0 ws)) [
  | inl stays ↦ let e' : win_main true ws ≡ none = rw stays refl in cc
  | inr (more, e') ↦ (more, e')
]

win_main_of_left :
    (ws : List Wait) → Leaves 0 ws → (actions : List Action) × (win_main true ws ≡ some actions)
unfolding win_main
win_main_of_left ws (more, e) =
    (create_dialog ∷ load_configuration ∷ set_waitable_timer ∷ more, rw e refl)

-- The tool, once it has started, leaves its loop after some of the waits that end exactly when
-- the last of the messages fetched after one of them is `WM_QUIT`: a `WM_QUIT` behind which the
-- same inner loop fetches another message is lost. The `PeekMessage` that gives no message is
-- taken to leave `msg` as it was.
pub win_main_iff :
    (ws : List Wait) → ((actions : List Action) × (win_main true ws ≡ some actions)) ↔ Quits ws
win_main_iff ws = (
  λ r. message_loop-Quits ws 0 (omega arith) (left_of_win_main ws r.0 r.1),
  λ q. win_main_of_left ws (Quits-message_loop ws 0 q),
)
