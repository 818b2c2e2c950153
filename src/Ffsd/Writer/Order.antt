-- ===== src/Ffsd/Writer/Order.antt =====
-- Which reports reach the endpoint, and in which order.
use meta_dualsense.Prelude.{Bool, true, false, ◌≡◌, refl, List, [], ◌∷◌}
use mathlib.Core.Path.{subst, subst₂}
use meta_dualsense.Ffsd.Writer.{
  Report, Phase, waiting, writing, exited, Writer, started, submit, request_stop, take_report,
  wrote, leave, Step, submits, stops, takes, writes, leaves, Reach, here, next,
}

-- `xs` is `ys` with some elements left out.
pub data Sublist : List Report → List Report → Type 0 where
  done : Sublist [] []
  skip : {xs ys : List Report} (r : Report) → Sublist xs ys → Sublist xs (r ∷ ys)
  keep : {xs ys : List Report} (r : Report) → Sublist xs ys → Sublist (r ∷ xs) (r ∷ ys)

-- What has left the shared slot: the report that is being written, and those written before.
abbrev sent : Phase → List Report → List Report
sent waiting ws = ws
sent (writing r) ws = r ∷ ws
sent exited ws = ws

-- The pending report is the last submitted, and what was sent comes before it.
abbrev InOrder : Bool → Report → List Report → List Report → Type 0
InOrder false r xs ys = Sublist xs ys
InOrder true r xs [] = ⊥
InOrder true r xs (y ∷ ys) = (y ≡ r) × Sublist xs ys

IsOrdered : Writer → Type 0
IsOrdered w = InOrder w.has_pending w.report (sent w.phase w.written) w.submitted

any_order : (b : Bool) (r : Report) (xs ys : List Report) → InOrder b r xs ys → Sublist xs ys
any_order false r xs ys h = h
any_order true r xs [] h = absurd h
any_order true r xs (y ∷ ys) h = skip y h.1

take_order : (r : Report) (xs ys : List Report) → InOrder true r xs ys → Sublist (r ∷ xs) ys
take_order r xs [] h = absurd h
take_order r xs (y ∷ ys) h = rw h.0 (keep r h.1)

Step-IsOrdered : {w v : Writer} → Step w v → IsOrdered w → IsOrdered v
unfolding IsOrdered submit request_stop take_report wrote leave
Step-IsOrdered {w} (submits r) h =
    (refl, any_order w.has_pending w.report (sent w.phase w.written) w.submitted h)
Step-IsOrdered stops h = h
Step-IsOrdered {w} (takes p q s) h =
    take_order w.report w.written w.submitted
      (subst₂ (λ b f. InOrder b w.report (sent f w.written) w.submitted) q p h)
Step-IsOrdered {w} (writes r p) h =
    subst (λ f. InOrder w.has_pending w.report (sent f w.written) w.submitted) p h
Step-IsOrdered {w} (leaves p s) h =
    subst (λ f. InOrder w.has_pending w.report (sent f w.written) w.submitted) p h

Reach-IsOrdered : {w : Writer} → Reach started w → IsOrdered w
Reach-IsOrdered here = unfold IsOrdered in done
Reach-IsOrdered (next r s) = Step-IsOrdered s (Reach-IsOrdered r)

sublist_tail :
    {r : Report} {xs : List Report} (ys : List Report) → Sublist (r ∷ xs) ys → Sublist xs ys
sublist_tail ys (skip {ys = zs} q h) = skip q (sublist_tail zs h)
sublist_tail ys (keep q h) = skip q h

sublist_of_sent : (f : Phase) (ws ys : List Report) → Sublist (sent f ws) ys → Sublist ws ys
sublist_of_sent waiting ws ys h = h
sublist_of_sent exited ws ys h = h
sublist_of_sent (writing r) ws ys h = sublist_tail ys h

-- In every interleaving of the main thread and the writer thread, the reports written are some of
-- those submitted, each submission at most once and in the order of submission.
pub written_in_order : {w : Writer} → Reach started w → Sublist w.written w.submitted
written_in_order {w} r = sublist_of_sent w.phase w.written w.submitted (
    any_order w.has_pending w.report (sent w.phase w.written) w.submitted
      (unfold IsOrdered in Reach-IsOrdered r))
