-- ===== src/Ffsd/Daemon/Quiet.antt =====
-- The steps of the main loop that report nothing.
use meta_dualsense.Prelude.{
  ap, ℕ, ◌≡◌, refl, ◌∙◌, Bool, true, false, Option, none, some, List, [], ◌∷◌, ◌++◌, Bool-cases,
  inl, inr,
}
use meta_dualsense.Prelude.Text.{Bytes, codes, same_text, behind_prefix}
use meta_dualsense.Input.{InputEvent}
use meta_dualsense.Mapper.Float.{Float}
use meta_dualsense.Chord.{hotkey_should_fire}
use meta_dualsense.Ffsd.Setup.{FfsEvent, Reply, handle_ffs_event}
use meta_dualsense.Ffsd.Slots.{FdEffect, clip, plug}
use meta_dualsense.Ffsd.Daemon.{
  Daemon, Effect, submit, snapshot, answer, descriptor, publish, release, switch_to_passthrough,
  Arrival, Notice, closes, descriptors, replied, answers, lines, on_device, reload, on_notice,
  on_notices, on_event, drain, test_chord, drop_device, on_input,
}

-- The reports handed to the writer thread, and those stored in the snapshot file, the first one first.
unfoldable pub submissions : List Effect → List (List ℕ)
submissions [] = []
submissions (submit r ∷ es) = r ∷ submissions es
submissions (e ∷ es) = submissions es

unfoldable pub snapshots : List Effect → List (List ℕ)
snapshots [] = []
snapshots (snapshot r ∷ es) = r ∷ snapshots es
snapshots (e ∷ es) = snapshots es

pub submissions-append : (a b : List Effect) → submissions (a ++ b) ≡ submissions a ++ submissions b
unfolding submissions
submissions-append [] b = refl
submissions-append (submit r ∷ a) b = ap (λ (rs : List (List ℕ)). r ∷ rs) (submissions-append a b)
submissions-append (snapshot r ∷ a) b = submissions-append a b
submissions-append (answer r ∷ a) b = submissions-append a b
submissions-append (descriptor e ∷ a) b = submissions-append a b
submissions-append (publish to line ∷ a) b = submissions-append a b
submissions-append (release fd ∷ a) b = submissions-append a b
submissions-append (switch_to_passthrough ∷ a) b = submissions-append a b

pub snapshots-append : (a b : List Effect) → snapshots (a ++ b) ≡ snapshots a ++ snapshots b
unfolding snapshots
snapshots-append [] b = refl
snapshots-append (submit r ∷ a) b = snapshots-append a b
snapshots-append (snapshot r ∷ a) b = ap (λ (rs : List (List ℕ)). r ∷ rs) (snapshots-append a b)
snapshots-append (answer r ∷ a) b = snapshots-append a b
snapshots-append (descriptor e ∷ a) b = snapshots-append a b
snapshots-append (publish to line ∷ a) b = snapshots-append a b
snapshots-append (release fd ∷ a) b = snapshots-append a b
snapshots-append (switch_to_passthrough ∷ a) b = snapshots-append a b

-- Neither a report nor a snapshot.
abbrev pub IsQuiet : List Effect → Type 0
IsQuiet es = (submissions es ≡ []) × (snapshots es ≡ [])

IsQuiet-append : (a b : List Effect) → IsQuiet a → IsQuiet b → IsQuiet (a ++ b)
IsQuiet-append a b qa qb =
    (submissions-append a b ∙ rw (qa.0, qb.0) refl, snapshots-append a b ∙ rw (qa.1, qb.1) refl)

pub IsQuiet-closes : (fds : List ℕ) → IsQuiet (closes fds)
unfolding submissions snapshots
IsQuiet-closes [] = (refl, refl)
IsQuiet-closes (fd ∷ fds) = IsQuiet-closes fds

IsQuiet-descriptors : (es : List FdEffect) → IsQuiet (descriptors es)
unfolding submissions snapshots
IsQuiet-descriptors [] = (refl, refl)
IsQuiet-descriptors (e ∷ es) = IsQuiet-descriptors es

IsQuiet-replied : (o : Option Reply) → IsQuiet (replied o)
unfolding submissions snapshots
IsQuiet-replied none = (refl, refl)
IsQuiet-replied (some r) = (refl, refl)

pub IsQuiet-answers : (es : List FfsEvent) → IsQuiet (answers es)
unfolding submissions snapshots answers
IsQuiet-answers [] = (refl, refl)
IsQuiet-answers (e ∷ es) =
    IsQuiet-append (replied (handle_ffs_event e)) (answers es)
      (IsQuiet-replied (handle_ffs_event e)) (IsQuiet-answers es)

IsQuiet-lines :
    (e : InputEvent) (is_mouse : Bool) (to closed : List ℕ) → IsQuiet (lines e is_mouse to closed)
unfolding submissions snapshots lines
IsQuiet-lines e is_mouse [] closed = IsQuiet-closes closed
IsQuiet-lines e is_mouse (c ∷ to) closed = IsQuiet-closes closed

module _ (fp : Float) (atof : Bytes → fp.Double) where
  open fp use {Double}

  -- Nothing is reported, and the counter stays.
  abbrev pub KeepsCount : Daemon Double → Daemon Double × List Effect → Type 0
  KeepsCount d r = IsQuiet r.1 × (r.0.snap_counter ≡ d.snap_counter)

  keeps-on_notice :
      (d : Daemon Double) (n : Notice) (o : Option Bytes) → KeepsCount d (on_notice fp atof d n o)
  unfolding on_notice on_device reload submissions snapshots
  keeps-on_notice d n (some rest) =
      (IsQuiet-descriptors (plug n.c_open d.slots (clip (codes "/dev/input/" ++ n.name))).1, refl)
  keeps-on_notice d n none = elim (Bool-cases (same_text n.name (codes "kbm-mapper.conf"))) [
    | inl config ↦ rw config ((refl, refl), refl)
    | inr other ↦ rw other ((refl, refl), refl)
  ]

  pub keeps-on_notices :
      (d : Daemon Double) (ns : List Notice) → KeepsCount d (on_notices fp atof d ns)
  unfolding on_notices submissions snapshots
  keeps-on_notices d [] = ((refl, refl), refl)
  keeps-on_notices d (n ∷ ns) =
      let first = on_notice fp atof d n (behind_prefix (codes "event") n.name) in
      let one = keeps-on_notice d n (behind_prefix (codes "event") n.name) in
      let more = keeps-on_notices first.0 ns in
      (IsQuiet-append first.1 (on_notices fp atof first.0 ns).1 one.0 more.0, more.1 ∙ one.1)

  keeps-drain :
      (d : Daemon Double) (is_mouse : Bool) (as_ : List Arrival)
      → KeepsCount d (drain fp atof d is_mouse as_)
  unfolding drain on_event submissions snapshots
  keeps-drain d is_mouse [] = ((refl, refl), refl)
  keeps-drain d is_mouse (a ∷ as_) =
      let first = on_event fp atof d is_mouse a in
      let more = keeps-drain first.0 is_mouse as_ in
      (
        IsQuiet-append first.1 (drain fp atof first.0 is_mouse as_).1
            (IsQuiet-lines a.event is_mouse _ _) more.0,
        more.1,
      )

  keeps-test_chord : (d : Daemon Double) (now_ns : ℕ) → KeepsCount d (test_chord fp atof d now_ns)
  unfolding test_chord submissions snapshots
  keeps-test_chord d now_ns = elim (Bool-cases (hotkey_should_fire d.hotkey now_ns).1) [
    | inl fires ↦ rw fires ((refl, refl), refl)
    | inr still ↦ rw still ((refl, refl), refl)
  ]

  keeps-drop_device :
      (d : Daemon Double) (fd : ℕ) (gone : Bool) → KeepsCount d (drop_device fp atof d fd gone)
  unfolding drop_device submissions snapshots
  keeps-drop_device d fd true = ((refl, refl), refl)
  keeps-drop_device d fd false = ((refl, refl), refl)

  pub keeps-on_input :
      (d : Daemon Double) (fd : ℕ) (is_mouse : Bool) (as_ : List Arrival) (now_ns : ℕ) (gone : Bool)
      → KeepsCount d (on_input fp atof d fd is_mouse as_ now_ns gone)
  unfolding on_input
  keeps-on_input d fd is_mouse as_ now_ns gone =
      let r1 = drain fp atof d is_mouse as_ in
      let r2 = test_chord fp atof r1.0 now_ns in
      let r3 = drop_device fp atof r2.0 fd gone in
      let (q1, k1) = keeps-drain d is_mouse as_ in
      let (q2, k2) = keeps-test_chord r1.0 now_ns in
      let (q3, k3) = keeps-drop_device r2.0 fd gone in
      (IsQuiet-append r1.1 (r2.1 ++ r3.1) q1 (IsQuiet-append r2.1 r3.1 q2 q3), k3 ∙ k2 ∙ k1)
