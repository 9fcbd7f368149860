-- ===== src/Window/Tabs.antt =====
-- The dialogs of the tabs: one is shown, that of the selected tab.
use ntfw.Common.{
  ℕ, zero, suc, true, false, ◌≡◌, ◌<◌, refl, arith, List, [], ◌∷◌, Option, none, some,
}
use ntfw.Common.{length, All, Bool}
use ntfw.Window.{Rect, Place, Child, show_window, dlg_proc, place_tabs}
use ntfw.Window.{wm_initdialog, tcn_selchanging, tcn_selchange}

-- The dialog of the tab with this index is shown, and no other; without an index, none is.
abbrev pub Only : Option ℕ → List Child → Type 0
Only none [] = Unit
Only (some i) [] = ⊥
Only none (c ∷ cs) = (c.shown ≡ false) × Only none cs
Only (some zero) (c ∷ cs) = (c.shown ≡ true) × Only none cs
Only (some (suc i)) (c ∷ cs) = (c.shown ≡ false) × Only (some i) cs

hide-Only : (cs : List Child) (i : ℕ) → Only (some i) cs → Only none (show_window (some i) false cs)
unfolding show_window
hide-Only [] i o = absurd o
hide-Only (c ∷ cs) zero o = (refl, o.1)
hide-Only (c ∷ cs) (suc i) o = (o.0, hide-Only cs i o.1)

show-Only :
    (cs : List Child) (i : ℕ)
    → i < length cs
    → Only none cs
    → Only (some i) (show_window (some i) true cs)
unfolding show_window
show-Only [] i h o = omega arith
show-Only (c ∷ cs) zero h o = (refl, o.1)
show-Only (c ∷ cs) (suc i) h o = (o.0, show-Only cs i (omega arith) o.1)

show-length : (cs : List Child) (i : ℕ) (b : Bool) → length (show_window (some i) b cs) ≡ length cs
unfolding show_window
show-length [] i b = refl
show-length (c ∷ cs) zero b = refl
show-length (c ∷ cs) (suc i) b = omega (arith, show-length cs i b)

-- The user selects one tab after another, from the one that is selected: each time the control
-- sends its two notices.
abbrev pub select_all : ℕ → List ℕ → List Child → List Child
select_all sel [] cs = cs
select_all sel (next ∷ more) cs =
    let hidden = (dlg_proc (tcn_selchanging (some sel)) cs).2 in
    select_all next more (dlg_proc (tcn_selchange (some next)) hidden).2

abbrev pub last_selected : ℕ → List ℕ → ℕ
last_selected sel [] = sel
last_selected sel (next ∷ more) = last_selected next more

select_all-Only :
    (sels : List ℕ) (sel : ℕ) (cs : List Child) (n : ℕ)
    → n ≡ length cs
    → All (λ i. i < n) sels
    → Only (some sel) cs
    → Only (some (last_selected sel sels)) (select_all sel sels cs)
unfolding dlg_proc
select_all-Only [] sel cs n e h o = o
select_all-Only (next ∷ more) sel cs n e h o =
    let hidden = show_window (some sel) false cs in
    let kept = show-length cs sel false in
    let kept' = show-length hidden next true in
    select_all-Only more next (show_window (some next) true hidden) n (omega arith) h.1
      (show-Only hidden next (omega (arith, h.0)) (hide-Only cs sel o))

-- After `WM_INITDIALOG` and any selections of tabs by the user, the first tab being selected at
-- the start, the dialog of the selected tab is shown and the two others are hidden.
pub select_all-tabs :
    (stale : ℕ → Place) (window display : Rect) (sels : List ℕ)
    → All (λ i. i < 3) sels
    → Only
        (some (last_selected 0 sels))
        (select_all 0 sels (dlg_proc (wm_initdialog stale window display) []).2)
unfolding dlg_proc place_tabs
select_all-tabs stale window display sels h =
    select_all-Only sels 0 (dlg_proc (wm_initdialog stale window display) []).2 3 refl h
      (refl, (refl, (refl, tt)))
