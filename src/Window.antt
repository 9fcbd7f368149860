-- ===== src/Window.antt =====
-- ntfw/ntfw.cpp: the main window of the configuration tool, with the dialogs of its tabs, and the
-- loop of `WinMain` over the messages. What the system answers is an argument: the rectangles of
-- the tab control, its selection, and the messages that `PeekMessage` gives.
pub mod Tabs
pub mod Quit
use Prim.Native.String.{String}
use ntfw.Common.{ℕ, zero, suc, Bool, true, false, ◌+◌, ◌-◌, ◌^◌, ◌==◌, if◌then◌else◌, u32}
use ntfw.Common.{List, [], ◌∷◌, ◌++◌, Option, none, some}

-- `RECT`, its fields as words
pub record Rect : Type 0 where
  pub left : ℕ
  pub top : ℕ
  pub right : ℕ
  pub bottom : ℕ

-- Where a dialog stands in the tab control, and how large it is.
pub record Place : Type 0 where
  pub x : ℕ
  pub y : ℕ
  pub cx : ℕ
  pub cy : ℕ

-- The dialog of a tab; those of the resources start hidden.
pub record Child : Type 0 where
  pub name : String
  pub resource : ℕ
  pub place : Place
  pub shown : Bool

abbrev idd_rules : ℕ
idd_rules = 5

abbrev idd_users : ℕ
idd_users = 105

abbrev idd_basic : ℕ
idd_basic = 107

-- `Tabs`, by their names and resources
abbrev pub tabs : List (String × ℕ)
tabs = ("Basic", idd_basic) ∷ ("Users", idd_users) ∷ ("Rules", idd_rules) ∷ []

abbrev word_sub : ℕ → ℕ → ℕ
word_sub a b = u32 (a + 2 ^ 32 - b)

-- What the first round of the loop makes of the rectangle of the control, and of the same
-- rectangle as `TabCtrl_AdjustRect` leaves it.
unfoldable pub display_place : Rect → Rect → Place
display_place window display =
    let left = word_sub display.left 2 in
    let bottom = u32 (display.bottom + 2) in
    record {
      x = word_sub left window.left;
      y = word_sub display.top window.top;
      cx = word_sub display.right left;
      cy = word_sub bottom display.top;
    }

-- The loop over the tabs, from a round on. The rectangles are declared in the body of the loop and
-- written in its first round only, so that `stale` says what stands in them in a later round.
unfoldable pub place_tabs : (ℕ → Place) → Rect → Rect → ℕ → List (String × ℕ) → List Child
place_tabs stale window display i [] = []
place_tabs stale window display i ((name, id) ∷ more) =
    record {
      name = name;
      resource = id;
      place = if i == 0 then display_place window display else stale i;
      shown = i == 0;
    }
    ∷ place_tabs stale window display (i + 1) more

-- `ShowWindow` on the dialog of a tab; no tab, no dialog.
unfoldable pub show_window : Option ℕ → Bool → List Child → List Child
show_window none b cs = cs
show_window (some i) b [] = []
show_window (some zero) b (c ∷ cs) = record c { shown = b } ∷ cs
show_window (some (suc i)) b (c ∷ cs) = c ∷ show_window (some i) b cs

-- The messages, as far as `DlgProc` tells them apart. A notice comes with what
-- `TabCtrl_GetCurSel` answers.
pub data Message : Type 0 where
  wm_initdialog : (ℕ → Place) → Rect → Rect → Message
  tcn_selchanging : Option ℕ → Message
  tcn_selchange : Option ℕ → Message
  wm_command : ℕ → Message
  other : Message

abbrev pub idcancel : ℕ
idcancel = 2

abbrev pub idc_save : ℕ
idc_save = 1009

pub data Effect : Type 0 where
  post_quit_message : Effect
  save_configuration : Effect

-- `DlgProc`: its result, what it calls, and the dialogs of the tabs.
unfoldable pub dlg_proc : Message → List Child → Bool × List Effect × List Child
dlg_proc (wm_initdialog stale window display) cs =
    (true, [], place_tabs stale window display 0 tabs)
dlg_proc (tcn_selchanging sel) cs = (false, [], show_window sel false cs)
dlg_proc (tcn_selchange sel) cs = (false, [], show_window sel true cs)
dlg_proc (wm_command w_param) cs = (
  true,
  (if w_param == idcancel then post_quit_message ∷ [] else [])
      ++ (if w_param == idc_save then save_configuration ∷ [] else []),
  cs,
)
dlg_proc other cs = (false, [], cs)

abbrev pub wm_quit : ℕ
wm_quit = 18

-- A wait of the loop: whether the timer ended it, and the messages that `PeekMessage` then gives
-- until it gives none.
pub record Wait : Type 0 where
  pub timer : Bool
  pub fetched : List ℕ

pub data Action : Type 0 where
  create_dialog : Action
  load_configuration : Action
  set_waitable_timer : Action
  translate_message : ℕ → Action
  dispatch_message : ℕ → Action

-- The inner loops.
unfoldable pub drain : Bool → List ℕ → List Action
drain timer [] = []
drain true (m ∷ ms) = dispatch_message m ∷ drain true ms
drain false (m ∷ ms) = translate_message m ∷ dispatch_message m ∷ drain false ms

-- `msg.message` after an inner loop; the `PeekMessage` that gives no message leaves it.
unfoldable pub last_message : ℕ → List ℕ → ℕ
last_message msg [] = msg
last_message msg (m ∷ ms) = last_message m ms

-- The outer loop over the waits that end; `none` while it has not left.
unfoldable pub message_loop : ℕ → List Wait → Option (List Action)
message_loop msg [] = if msg == wm_quit then some [] else none
message_loop msg (w ∷ ws) =
    let rest = message_loop (last_message msg w.fetched) ws in
    if msg == wm_quit
    then some []
    else elim rest [ none ↦ none | some more ↦ some (drain w.timer w.fetched ++ more) ]

-- `WinMain`, by what it calls; `startup` is the result of `InitCommonControlsEx`.
unfoldable pub win_main : Bool → List Wait → Option (List Action)
win_main startup ws =
    if startup
    then elim (message_loop 0 ws) [
      | none ↦ none
      | some more ↦ some (create_dialog ∷ load_configuration ∷ set_waitable_timer ∷ more)
    ]
    else some []
