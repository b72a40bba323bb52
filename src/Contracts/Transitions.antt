-- ===== src/Contracts/Transitions.antt =====
-- The status machine of the contracts as a relation.
use distributed_code_executi.Common.{◌≡◌, refl, true, ◌↔◌, some}
use distributed_code_executi.Contracts.Defs.{
  SubmissionStatus, is_valid_transition, is_terminal_status,
}

-- Sequences of allowed transitions.
pub data Trace : SubmissionStatus → SubmissionStatus → Type 0 where
  stay : {s : SubmissionStatus} → Trace s s
  move : {s t u : SubmissionStatus} → is_valid_transition s t ≡ true → Trace t u → Trace s u

-- A status allows no transition exactly when it is terminal.
pub terminal_iff_stuck :
    (s : SubmissionStatus)
    → (is_terminal_status (some s) ≡ true)
      ↔ ((t : SubmissionStatus) → is_valid_transition s t ≡ true → ⊥)
unfolding is_terminal_status is_valid_transition
terminal_iff_stuck SubmissionStatus.pending =
    ((λ h. cc), λ h. absurd (h SubmissionStatus.running refl))
terminal_iff_stuck SubmissionStatus.running =
    ((λ h. cc), λ h. absurd (h SubmissionStatus.failed refl))
terminal_iff_stuck SubmissionStatus.completed = ((λ h t e. cc), λ h. refl)
terminal_iff_stuck SubmissionStatus.failed = ((λ h t e. cc), λ h. refl)
terminal_iff_stuck SubmissionStatus.timeout = ((λ h t e. cc), λ h. refl)

-- A terminal status stays: every sequence of allowed transitions from it is empty.
pub terminal_absorbing :
    {s t : SubmissionStatus} → is_terminal_status (some s) ≡ true → Trace s t → t ≡ s
terminal_absorbing h stay = refl
terminal_absorbing {s} h (move {t} v r) = absurd ((terminal_iff_stuck s).0 h t v)
