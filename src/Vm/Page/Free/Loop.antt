-- ===== src/Vm/Page/Free/Loop.antt =====
-- The loop of _page_free in vm/page.c, and _page_free as a whole.
use mathlib.Core.Path.{subst}
use mathlib.Core.Bool.{true≢false}
use native.Mathlib.Nat.{add-mul, mul-add}
use native.Mathlib.Decide.{dec_lt}
use phoenix_rtos_kernel.Base.{
  ℕ, zero, suc, ◌+◌, ◌*◌, ◌/◌, ◌%◌, ◌^◌, ◌≤◌, ◌<◌, ◌≡◌, refl, ap, sym, ◌∙◌, ◌⊎◌, inl, inr, Bool,
  true, false, Option, none, some, ◌==◌, ==_refl, upd, list_add, has, Bool-cases, arith,
}
use phoenix_rtos_kernel.Vm.Page.{Pages, pages_of, size_vm_sizes, size_page}
use phoenix_rtos_kernel.Vm.Page.Cover.{pages_of-pos}
use phoenix_rtos_kernel.Vm.Page.Free.{merge, halves, is_pair, join_free}
use phoenix_rtos_kernel.Vm.Page.Free.Buddy.{IsMultiple, IsSegment}
use phoenix_rtos_kernel.Vm.Page.Free.Open.{IsOpen, All-at, other_half-listed}
use phoenix_rtos_kernel.Vm.Page.Free.Merge.{IsJoint, merge-IsOpen}
use phoenix_rtos_kernel.Vm.Page.Free.Join.{IsBuddies, Ready, halves-Ready, closed-IsBuddies, double}

-- The number of pages, as the loop computes it
abbrev pub total : Pages → ℕ
total s = (s.allocsz + s.freesz) % 2 ^ 64 / size_page

pair-facts :
    (s : Pages) (k l rh : ℕ)
    → is_pair s k l rh ≡ true
    → (rh < total s)
      × (s.flags l % 2 ≡ 1)
      × (s.flags rh % 2 ≡ 1)
      × (s.idx l ≡ s.idx rh)
      × (s.addr l + 2 ^ s.idx l ≡ s.addr rh)
pair-facts s k l rh e = (ground arith, ground arith, ground arith, ground arith, ground arith)

twofold : (k t : ℕ) → t * 2 ^ (k + 1) ≡ (t + t) * 2 ^ k
twofold k t =
    ap (λ (w : ℕ). t * w) (double k) ∙ mul-add t (2 ^ k) (2 ^ k) ∙ sym (add-mul t t (2 ^ k))

module _ (s : Pages) (n k x : ℕ) (pool : IsOpen s n k x) (below : k < size_vm_sizes)
    (few : n < 2 ^ 20) (sum : total s ≤ n) where
  -- Both halves of the largest size do not fit into the pages.
  fits :
      (o : ℕ)
      → has (s.sizes k) o ≡ true
      → x + pages_of k ≡ o ⊎ o + pages_of k ≡ x
      → k + 1 < size_vm_sizes
  fits o m next =
      let seg = All-at (IsSegment n s.addr k) (s.sizes k) o (pool.segments k below) m in
      elim (dec_lt (k + 1) 32) [
        | yes l ↦ l
        | no g ↦
            let largest : pages_of k ≡ 524288 = (let e : k ≡ 31 = omega arith in ap pages_of e) in
            absurd (elim next [
              | inl e ↦ omega (arith, seg.1, largest)
              | inr e ↦ omega (arith, pool.segment.1, largest)
            ])
      ]

  left-IsJoint :
      (rh : ℕ)
      → is_pair s k x rh ≡ true
      → rh ≡ x + pages_of k
      → IsMultiple (2 ^ (k + 1)) (s.addr x)
      → IsJoint s n k x rh x rh
  left-IsJoint rh e behind (t, at) =
      let (a, b, c, d, f) = pair-facts s k x rh e in
      let next : s.addr rh ≡ s.addr x + 2 ^ k =
        sym f ∙ ap (λ (w : ℕ). s.addr x + 2 ^ w) pool.index in
      let multiple : s.addr rh ≡ (t + t + 1) * 2 ^ k =
        next ∙ omega (arith, at, twofold k t, add-mul (t + t) 1 (2 ^ k)) in
      let m =
        other_half-listed s n k x pool rh t (omega arith) c (ground (arith, behind))
          (sym d ∙ pool.index) (t + t + 1, multiple)
          (inl (at, next ∙ ap (λ (w : ℕ). w + 2 ^ k) at)) in
      record {
        pool = pool;
        which = inl (refl, refl);
        behind = behind;
        listed = m;
        start = (t, at);
        follows = next;
        small = fits rh m (inl (sym behind));
      }

  right-IsJoint :
      (l : ℕ)
      → is_pair s k l x ≡ true
      → l + pages_of k ≡ x
      → ((t : ℕ) × (s.addr x ≡ t * 2 ^ (k + 1) + 2 ^ k))
      → IsJoint s n k x l l x
  right-IsJoint l e before (t, at) =
      let (a, b, c, d, f) = pair-facts s k l x e in
      let index : s.idx l ≡ k = d ∙ pool.index in
      let next : s.addr x ≡ s.addr l + 2 ^ k = sym f ∙ ap (λ (w : ℕ). s.addr l + 2 ^ w) index in
      let here : s.addr l ≡ t * 2 ^ (k + 1) = omega arith in
      let multiple : s.addr l ≡ (t + t) * 2 ^ k = here ∙ twofold k t in
      let some_page : 0 < pages_of k = pages_of-pos k pool.above in
      let m =
        other_half-listed s n k x pool l t (omega arith) b (ground (arith, before, some_page)) index
          (t + t, multiple) (inr (here, at)) in
      record {
        pool = pool;
        which = inr (refl, refl);
        behind = sym before;
        listed = m;
        start = (t, here);
        follows = next;
        small = fits l m (inr before);
      }

-- The half left behind is not next to the pair, so such a round is the last.
not_next :
    (s : Pages) (n k x l rh : ℕ)
    → IsOpen s n k x
    → total s ≤ n
    → is_pair s k l rh ≡ true
    → l + pages_of k ≡ x
    → x < rh
    → s.idx rh ≡ 12
    → ⊥
not_next s n k x l rh pool sum e before behind twelve =
    let (a, b, c, d, f) = pair-facts s k l rh e in
    let some_page : 0 < pages_of k = pages_of-pos k pool.above in
    let one_page : s.addr l + 4096 ≡ s.addr rh =
      ap (λ (w : ℕ). s.addr l + 2 ^ w) (sym (d ∙ twelve)) ∙ f in
    omega (arith, pool.laid l rh (omega arith) (omega arith))

-- After a joint, the next pair is ready.
next-Ready :
    (s : Pages) (n k x o l rh : ℕ)
    → IsJoint s n k x o l rh
    → let s' = merge s x k l rh in Ready s' (k + 1) l (halves s' l (k + 1) (some l) rh)
next-Ready s n k x o l rh joint =
    let some_page : 0 < pages_of k = pages_of-pos k joint.pool.above in
    let apart : (rh == l) ≡ false = ground (arith, joint.behind) in
    halves-Ready (merge s x k l rh) n (k + 1) l (merge-IsOpen s n k x o l rh joint) rh
      (inr (omega (arith, joint.behind), rw (apart, ==_refl rh) refl))

abbrev pub is_some : Option ℕ → Bool
is_some none = false
is_some (some i) = true

abbrev pub or_zero : Option ℕ → ℕ
or_zero none = 0
or_zero (some i) = i

-- A pair that is ready and fulfils the condition of the loop is a joint.
pub Ready-IsJoint :
    (s : Pages) (n k x l rh : ℕ)
    → IsOpen s n k x
    → k < size_vm_sizes
    → n < 2 ^ 20
    → total s ≤ n
    → is_pair s k l rh ≡ true
    → Ready s k x (some l, rh)
    → (o : ℕ) × IsJoint s n k x o l rh
Ready-IsJoint s n k x l rh pool below few sum e (inl (f, g, multiple)) =
    let same : x ≡ l = sym (ap or_zero f) in
    (
      rh,
      subst (λ y. IsJoint s n k x rh y rh) same
          (left-IsJoint s n k x pool below few sum rh
            (subst (λ y. is_pair s k y rh ≡ true) (sym same) e) g multiple),
    )
Ready-IsJoint s n k x l rh pool below few sum e (inr (inl (l', f, before, g, top))) =
    let same : l' ≡ l = sym (ap or_zero f) in
    (
      l,
      subst (λ y. IsJoint s n k x l l y) (sym g)
          (right-IsJoint s n k x pool below few sum l (subst (λ y. is_pair s k l y ≡ true) g e)
            (subst (λ y. y + pages_of k ≡ x) same before) top),
    )
Ready-IsJoint s n k x l rh pool below few sum e (inr (inr (inl f))) =
    absurd (true≢false (ap is_some f))
Ready-IsJoint s n k x l rh pool below few sum e (inr (inr (inr (l', f, before, behind, twelve)))) =
    let same : l' ≡ l = sym (ap or_zero f) in
    absurd
      (not_next s n k x l rh pool sum e (subst (λ y. y + pages_of k ≡ x) same before) behind twelve)

pub join_free-closed :
    (fuel : ℕ) (s : Pages) (k x l rh : ℕ)
    → is_pair s k l rh ≡ false
    → join_free (suc fuel) s x k (some l) rh
      ≡ record s { sizes = upd s.sizes k (list_add (s.sizes k) x) }
unfolding join_free
join_free-closed fuel s k x l rh e = rw e refl

pub join_free-joined :
    (fuel : ℕ) (s : Pages) (k x l rh : ℕ)
    → is_pair s k l rh ≡ true
    → join_free (suc fuel) s x k (some l) rh ≡ (
        let s' = merge s x k l rh in
        let (lh', rh') = halves s' l (k + 1) (some l) rh in join_free fuel s' l (k + 1) lh' rh')
unfolding join_free
join_free-joined fuel s k x l rh e = rw e refl

pub join_free-IsBuddies :
    (fuel : ℕ) (s : Pages) (n k x : ℕ) (r : Option ℕ × ℕ)
    → IsOpen s n k x
    → k < size_vm_sizes
    → n < 2 ^ 20
    → total s ≤ n
    → Ready s k x r
    → IsBuddies (join_free fuel s x k r.0 r.1) n
unfolding join_free
join_free-IsBuddies zero s n k x r pool below few sum ready = closed-IsBuddies s n k x pool below
join_free-IsBuddies (suc fuel) s n k x (none, rh) pool below few sum ready =
    closed-IsBuddies s n k x pool below
join_free-IsBuddies (suc fuel) s n k x (some l, rh) pool below few sum ready =
    elim (Bool-cases (is_pair s k l rh)) [
      | inr e ↦
          subst (λ y. IsBuddies y n) (sym (join_free-closed fuel s k x l rh e))
            (closed-IsBuddies s n k x pool below)
      | inl e ↦
          subst (λ y. IsBuddies y n) (sym (join_free-joined fuel s k x l rh e))
            (let (o, joint) = Ready-IsJoint s n k x l rh pool below few sum e ready in
              join_free-IsBuddies fuel (merge s x k l rh) n (k + 1) l
                (halves (merge s x k l rh) l (k + 1) (some l) rh)
                (merge-IsOpen s n k x o l rh joint) joint.small few sum
                (next-Ready s n k x o l rh joint))
    ]
