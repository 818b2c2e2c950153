-- ===== src/Passthrough/Session/Released.antt =====
-- What the host of kbm-passthrough sees first and last.
use meta_dualsense.Prelude.{
  ℕ, ◌≡◌, refl, ◌∙◌, ap, Option, none, some, List, [], ◌∷◌, ◌++◌, replicate,
}
use meta_dualsense.Prelude.Text.{Bytes}
use meta_dualsense.Ffsd.Slots.{InputSlot}
use meta_dualsense.Passthrough.Keyboard.{kbd_report}
use meta_dualsense.Passthrough.Loop.{kbd, mouse, switch_to_emulation}
use meta_dualsense.Passthrough.Session.{
  Action, send, descriptor, release, Ready, sends, release_all, kbd_send_release_all,
  mouse_send_release_all, release_slot, release_slots, run, started, session,
}

-- The reports written to the two gadget nodes, in order.
unfoldable pub kbd_reports : List Action → List (List ℕ)
kbd_reports [] = []
kbd_reports (send (kbd r) ∷ acts) = r ∷ kbd_reports acts
kbd_reports (send (mouse r) ∷ acts) = kbd_reports acts
kbd_reports (send switch_to_emulation ∷ acts) = kbd_reports acts
kbd_reports (descriptor e ∷ acts) = kbd_reports acts
kbd_reports (release fd ∷ acts) = kbd_reports acts

unfoldable pub mouse_reports : List Action → List (List ℕ)
mouse_reports [] = []
mouse_reports (send (mouse r) ∷ acts) = r ∷ mouse_reports acts
mouse_reports (send (kbd r) ∷ acts) = mouse_reports acts
mouse_reports (send switch_to_emulation ∷ acts) = mouse_reports acts
mouse_reports (descriptor e ∷ acts) = mouse_reports acts
mouse_reports (release fd ∷ acts) = mouse_reports acts

kbd_reports-append : (a b : List Action) → kbd_reports (a ++ b) ≡ kbd_reports a ++ kbd_reports b
unfolding kbd_reports
kbd_reports-append [] b = refl
kbd_reports-append (send (kbd r) ∷ a) b = ap (λ rs. r ∷ rs) (kbd_reports-append a b)
kbd_reports-append (send (mouse r) ∷ a) b = kbd_reports-append a b
kbd_reports-append (send switch_to_emulation ∷ a) b = kbd_reports-append a b
kbd_reports-append (descriptor e ∷ a) b = kbd_reports-append a b
kbd_reports-append (release fd ∷ a) b = kbd_reports-append a b

mouse_reports-append :
    (a b : List Action) → mouse_reports (a ++ b) ≡ mouse_reports a ++ mouse_reports b
unfolding mouse_reports
mouse_reports-append [] b = refl
mouse_reports-append (send (mouse r) ∷ a) b = ap (λ rs. r ∷ rs) (mouse_reports-append a b)
mouse_reports-append (send (kbd r) ∷ a) b = mouse_reports-append a b
mouse_reports-append (send switch_to_emulation ∷ a) b = mouse_reports-append a b
mouse_reports-append (descriptor e ∷ a) b = mouse_reports-append a b
mouse_reports-append (release fd ∷ a) b = mouse_reports-append a b

-- No report of either kind.
abbrev IsSilent : List Action → Type 0
IsSilent acts = (kbd_reports acts ≡ []) × (mouse_reports acts ≡ [])

IsSilent-slot :
    (o : Option ℕ) (acts : List Action) → IsSilent acts → IsSilent (release_slot o ++ acts)
unfolding kbd_reports mouse_reports
IsSilent-slot none acts h = h
IsSilent-slot (some fd) acts h = h

IsSilent-slots : (slots : List InputSlot) → IsSilent (release_slots slots)
unfolding release_slots kbd_reports mouse_reports
IsSilent-slots [] = (refl, refl)
IsSilent-slots (s ∷ slots) = IsSilent-slot s.fd (release_slots slots) (IsSilent-slots slots)

-- The first report of every session to either node, and the last, is the one in which nothing is
-- pressed and nothing moves; between them are those of the loop, in their order.
pub session_released :
    (file : Option Bytes) (slots : List InputSlot) (rs : List Ready)
    → let acts = (run (started file slots) rs).1 in
      (kbd_reports (session file slots rs)
        ≡ replicate 8 0 ∷ (kbd_reports acts ++ (replicate 8 0 ∷ [])))
      × (mouse_reports (session file slots rs)
          ≡ replicate 4 0 ∷ (mouse_reports acts ++ (replicate 4 0 ∷ [])))
unfolding session release_all kbd_send_release_all mouse_send_release_all kbd_report kbd_reports
    mouse_reports
session_released file slots rs =
    let (s, acts) = run (started file slots) rs in
    let closing = sends release_all ++ release_slots s.slots in
    let (kbd_silent, mouse_silent) = IsSilent-slots s.slots in
    (
      ap (λ r. replicate 8 0 ∷ r) (kbd_reports-append acts closing)
          ∙ ap (λ r. replicate 8 0 ∷ (kbd_reports acts ++ (replicate 8 0 ∷ r))) kbd_silent,
      ap (λ r. replicate 4 0 ∷ r) (mouse_reports-append acts closing)
          ∙ ap (λ r. replicate 4 0 ∷ (mouse_reports acts ++ (replicate 4 0 ∷ r))) mouse_silent,
    )
