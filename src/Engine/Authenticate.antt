-- ===== src/Engine/Authenticate.antt =====
-- The hook of `ntfe_rx` for the authorization protocol NTFP.
use ntfw.Common.{ℕ, ◌≡◌, refl, Bool-cases, inl, inr, ◌==◌, ==_iff}
use ntfw.State.{Gs}
use ntfw.Net.{NetFrame}
use ntfw.Flow.{sig_data}
use ntfw.Common.{Option}
use ntfw.Engine.{Env, ntfe_rx, rx_ipv4, rx_unauthorized, rx_sig, ntfp_data}
use ntfw.Engine.Accept.{IsFrame, rx_sig-ne-ntfp}

hook_shut :
    (env env' : Env) (p : ℕ) (frame : NetFrame) (len mask b : ℕ) (hidx : Option ℕ) (gs : Gs)
    → IsFrame frame
    → rx_unauthorized env p frame len (rx_sig frame) mask b hidx gs
      ≡ rx_unauthorized env' p frame len (rx_sig frame) mask b hidx gs
unfolding rx_unauthorized
hook_shut env env' p frame len mask b hidx gs v =
    elim (Bool-cases (sig_data (rx_sig frame) == ntfp_data)) [
      | inl e ↦ absurd (rx_sig-ne-ntfp frame v ((==_iff _ _).0 e))
      | inr e ↦ rw e refl
    ]

-- No received frame reaches the processing of NTFP: whatever the clock and the verification of
-- signatures answer, `ntfe_rx` returns the same result and leaves the same state.
pub ntfe_rx_no_ntfp :
    (env env' : Env) (p : ℕ) (frame : NetFrame) (len : ℕ) (gs : Gs)
    → IsFrame frame
    → ntfe_rx env p frame len gs ≡ ntfe_rx env' p frame len gs
unfolding ntfe_rx rx_ipv4
ntfe_rx_no_ntfp env env' p frame len gs v = rw (hook_shut env env' p frame len _ _ _ gs v) refl
