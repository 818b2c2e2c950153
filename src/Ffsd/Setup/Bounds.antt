-- ===== src/Ffsd/Setup/Bounds.antt =====
-- What every reply on ep0 respects.
use meta_dualsense.Prelude.{
  ℕ, ◌≤◌, ◌≡◌, ◌≢◌, refl, min, Bool, true, false, not, ◌&&◌, Option, none, some, List, [], ◌∷◌,
  ◌==◌, ltb, if◌then◌else◌, length, take, get_elem?, arith, length-take, Bool-cases, inl, inr, ◌∙◌,
  ap,
}
use meta_dualsense.Ffsd.Descriptor.{hid_dt_hid, hid_dt_report}
use meta_dualsense.Ffsd.Features.{FeatureReport, find_feature_report}
use meta_dualsense.Ffsd.Features.Advertised.{
  IsRow, advertised, size_of, advertised_lem, find_feature_report-IsRow,
}
use meta_dualsense.Ffsd.Setup.{
  CtrlRequest, Reply, respond, stall_in, stall_out, ack, discard, respond_in, stall, is_in, type_of,
  high, low, idle_report, standard, feature, class_request, handle_setup,
}

-- Data go to the host only on an IN request, and no more than it asked for; a stall goes the way of
-- the request, and only an OUT request has its data phase dropped.
abbrev pub IsProper : CtrlRequest → Reply → Type 0
IsProper s (respond bytes) = (is_in s ≡ true) × (length bytes ≤ s.length)
IsProper s stall_in = is_in s ≡ true
IsProper s stall_out = is_in s ≡ false
IsProper s ack = Unit
IsProper s discard = is_in s ≡ false

respond_in-IsProper :
    (s : CtrlRequest) (bytes : List ℕ) (len : ℕ)
    → is_in s ≡ true
    → IsProper s (respond_in bytes len s.length)
unfolding respond_in
respond_in-IsProper s bytes len h =
    (h, ground (arith, length-take (if ltb s.length len then s.length else len) bytes))

stall-IsProper : (s : CtrlRequest) → IsProper s (stall (is_in s))
unfolding stall
stall-IsProper s = elim (Bool-cases (is_in s)) [ inl h ↦ rw h h | inr h ↦ rw h h ]

if-IsProper :
    (s : CtrlRequest) (b : Bool) (x y : Reply)
    → (b ≡ true → IsProper s x)
    → (b ≡ false → IsProper s y)
    → IsProper s (if b then x else y)
if-IsProper s true x y f g = f refl
if-IsProper s false x y f g = g refl

feature-IsProper :
    (s : CtrlRequest) (o : Option FeatureReport) → is_in s ≡ true → IsProper s (feature s o)
unfolding feature
feature-IsProper s none h = stall-IsProper s
feature-IsProper s (some r) h = respond_in-IsProper s r.bytes r.size h

standard-IsProper : (s : CtrlRequest) → IsProper s (standard s)
unfolding standard
standard-IsProper s =
    if-IsProper s (is_in s && s.request == 0x06) _ _
      (λ h.
        if-IsProper s (high s == hid_dt_report) _ _ (λ _. respond_in-IsProper s _ _ (ground arith))
          (λ _.
            if-IsProper s (high s == hid_dt_hid) _ _ (λ _. respond_in-IsProper s _ _ (ground arith))
              (λ _. stall-IsProper s)))
      (λ _. stall-IsProper s)

class_request-IsProper : (s : CtrlRequest) → IsProper s (class_request s)
unfolding class_request
class_request-IsProper s =
    if-IsProper s (is_in s && s.request == 0x01) _ _
      (λ h.
        if-IsProper s (high s == 0x03) _ _
          (λ _. feature-IsProper s (find_feature_report (low s)) (ground arith))
          (λ _. respond_in-IsProper s idle_report (length idle_report) (ground arith)))
      (λ _.
        if-IsProper s (not (is_in s) && s.request == 0x09) _ _ (λ h. ground arith)
          (λ _.
            if-IsProper s (s.request == 0x0A) _ _ (λ _. tt)
              (λ _.
                if-IsProper s (is_in s && s.request == 0x02) _ _
                  (λ h. respond_in-IsProper s (0 ∷ []) 1 (ground arith))
                  (λ _.
                    if-IsProper s (s.request == 0x0B) _ _ (λ _. tt)
                      (λ _.
                        if-IsProper s (is_in s && s.request == 0x03) _ _
                          (λ h. respond_in-IsProper s (1 ∷ []) 1 (ground arith))
                          (λ _. stall-IsProper s))))))

-- Whatever the request, data are written only if it is an IN request, and no more than `wLength`
-- bytes of them; a stall goes in the direction of the request; only the data phase of an OUT
-- request is read and dropped.
pub handle_setup-IsProper : (s : CtrlRequest) → IsProper s (handle_setup s)
unfolding handle_setup
handle_setup-IsProper s =
    if-IsProper s (type_of s == 0x00) _ _ (λ _. standard-IsProper s)
      (λ _.
        if-IsProper s (type_of s == 0x20) _ _ (λ _. class_request-IsProper s)
          (λ _. stall-IsProper s))

-- GET_REPORT(Feature)
abbrev pub IsGetFeature : CtrlRequest → Type 0
IsGetFeature s = (type_of s ≡ 0x20) × (is_in s ≡ true) × (s.request ≡ 0x01) × (high s ≡ 0x03)

get_feature :
    (s : CtrlRequest) → IsGetFeature s → handle_setup s ≡ feature s (find_feature_report (low s))
unfolding handle_setup class_request
get_feature s h = ground (arith, h)

found_of_size :
    (id n : ℕ) (o : Option FeatureReport)
    → find_feature_report id ≡ o
    → size_of o ≡ some n
    → (r : FeatureReport) × (o ≡ some r) × (r.size ≡ n) × IsRow id r
found_of_size id n none f h = cc
found_of_size id n (some r) f h = (r, refl, ground arith, find_feature_report-IsRow id f)

served :
    (s : CtrlRequest) (n : ℕ) (r : FeatureReport)
    → handle_setup s ≡ feature s (some r)
    → r.size ≡ n
    → IsRow (low s) r
    → (bytes : List ℕ) × (length bytes ≡ n)
      × (get_elem? bytes 0 ≡ some (low s))
      × (handle_setup s ≡ respond (take (min n s.length) bytes))
unfolding feature respond_in
served s n r h size row =
    (r.bytes, row.1 ∙ size, row.2, h ∙ ap (λ (k : ℕ). respond (take k r.bytes)) (ground arith))

-- Every feature report that the report descriptor announces is served: GET_REPORT(Feature) with an
-- id other than 0xf2 for which the descriptor announces `n` bytes is answered by the first
-- `wLength` of exactly `n` bytes, the first of which is the id.
pub get_feature_served :
    (s : CtrlRequest) (n : ℕ)
    → IsGetFeature s
    → low s ≢ 0xf2
    → advertised (low s) ≡ some n
    → (bytes : List ℕ) × (length bytes ≡ n)
      × (get_elem? bytes 0 ≡ some (low s))
      × (handle_setup s ≡ respond (take (min n s.length) bytes))
get_feature_served s n h ne a =
    let announced : size_of (find_feature_report (low s)) ≡ some n =
      ground (arith, advertised_lem (low s)) in
    let (r, e, size, row) = found_of_size (low s) n _ refl announced in
    served s n r (get_feature s h ∙ ap (feature s) e) size row
