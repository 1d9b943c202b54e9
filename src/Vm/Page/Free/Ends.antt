-- ===== src/Vm/Page/Free/Ends.antt =====
-- Where the loop of _page_free in vm/page.c ends.
use mathlib.Core.Path.{subst}
use mathlib.Core.Bool.{true≢false}
use native.Mathlib.Decide.{}
use phoenix_rtos_kernel.Base.{
  ℕ, zero, suc, ◌+◌, ◌-◌, ◌%◌, ◌^◌, ◌≤◌, ◌<◌, ◌≡◌, ◌≢◌, refl, ap, sym, ◌∙◌, ◌⊎◌, inl, inr, true,
  false, Option, none, some, List, leb, ◌==◌, ==_refl, bit_and, bit_and-mask, upd, list_add, has,
  has-add, Bool-cases, arith,
}
use phoenix_rtos_kernel.Vm.Page.{Pages, pages_of, size_vm_sizes}
use phoenix_rtos_kernel.Vm.Page.Free.{merge, halves, is_pair, join_free}
use phoenix_rtos_kernel.Vm.Page.Cover.{pages_of-pos}
use phoenix_rtos_kernel.Vm.Page.Free.Buddy.{pages_whole}
use phoenix_rtos_kernel.Vm.Page.Free.Open.{IsOpen}
use phoenix_rtos_kernel.Vm.Page.Free.Merge.{IsJoint, merge-IsOpen}
use phoenix_rtos_kernel.Vm.Page.Free.Join.{Ready, halves-Ready, double}
use phoenix_rtos_kernel.Vm.Page.Free.Loop.{
  total, is_some, or_zero, Ready-IsJoint, join_free-closed, join_free-joined,
}

-- Two pages are the first ones of free halves of the index, one behind the other.
abbrev pub FreeHalves : Pages → ℕ → ℕ → ℕ → ℕ → Type 0
FreeHalves s n k a b =
    (b < n)
    × (s.flags a % 2 ≡ 1)
    × (s.flags b % 2 ≡ 1)
    × (s.idx a ≡ k)
    × (s.idx b ≡ k)
    × (s.addr a + 2 ^ k ≡ s.addr b)

-- The segment `x` of index `j` is in its list and has the page `p`, and is not the left one of two free
-- halves.
abbrev pub IsJoined : Pages → ℕ → ℕ → ℕ → ℕ → Type 0
IsJoined s n p j x =
    (x ≤ p)
    × (p < x + pages_of j)
    × (has (s.sizes j) x ≡ true)
    × (s.addr x % 2 ^ (j + 1) ≡ 0 → FreeHalves s n j x (x + pages_of j) → ⊥)

has_last : (xs : List ℕ) (x : ℕ) → has (list_add xs x) x ≡ true
has_last xs x = elim (Bool-cases (has xs x)) [
  | inl e ↦ has-add xs x x ∙ rw e refl
  | inr e ↦ has-add xs x x ∙ rw (e, ==_refl x) refl
]

pub halves-left :
    (s : Pages) (x k rh : ℕ)
    → s.addr x % 2 ^ (k + 1) ≡ 0
    → halves s x k (some x) rh ≡ (some x, x + pages_of k)
halves-left s x k rh e =
    let mask : (bit_and (s.addr x) (2 ^ (k + 1) - 1) == 0) ≡ true =
      ground (arith, bit_and-mask (k + 1) (s.addr x), e) in
    rw mask refl

pub halves-right :
    (s : Pages) (x k rh o : ℕ)
    → s.addr x % 2 ^ (k + 1) ≢ 0
    → o + pages_of k ≡ x
    → halves s x k (some x) rh ≡ (some o, rh)
halves-right s x k rh o e f =
    let mask : (bit_and (s.addr x) (2 ^ (k + 1) - 1) == 0) ≡ false =
      ground (arith, bit_and-mask (k + 1) (s.addr x), e) in
    let fits : leb (pages_of k) x ≡ true = ground (arith, f) in
    let same : x - pages_of k ≡ o = omega (arith, f) in
    rw (mask, fits) (ap (λ (y : ℕ). (some y, rh)) same)

-- Free halves fulfil the condition of the loop.
pub FreeHalves-is_pair :
    (s : Pages) (n k a b : ℕ)
    → k < size_vm_sizes
    → total s ≡ n
    → FreeHalves s n k a b
    → is_pair s k a b ≡ true
FreeHalves-is_pair s n k a b below sum (small, fa, fb, ia, ib, next) =
    let near : s.addr a + 2 ^ s.idx a ≡ s.addr b = ap (λ (j : ℕ). s.addr a + 2 ^ j) ia ∙ next in
    let same : s.idx a ≡ s.idx b = ia ∙ sym ib in
    let fits : b < total s = omega (arith, sum) in ground (arith, near, same, fits)

twice_pages : (k : ℕ) → 12 ≤ k → pages_of (k + 1) ≡ pages_of k + pages_of k
twice_pages k h = omega (arith, pages_whole k h, pages_whole (k + 1) (omega arith), double k)

-- The segment in hand is put into its list.
closed-IsJoined :
    (s : Pages) (n k x p : ℕ) (rh0 : ℕ) (lo : Option ℕ) (rh : ℕ)
    → k < size_vm_sizes
    → total s ≡ n
    → halves s x k (some x) rh0 ≡ (lo, rh)
    → x ≤ p
    → p < x + pages_of k
    → ((l : ℕ) → lo ≡ some l → is_pair s k l rh ≡ false)
    → IsJoined (record s { sizes = upd s.sizes k (list_add (s.sizes k) x) }) n p k x
closed-IsJoined s n k x p rh0 lo rh below sum now a b ended = (
  a,
  b,
  rw (==_refl k) (has_last (s.sizes k) x),
  λ left halves.
      (let first = halves-left s x k rh0 left in
        let lh : lo ≡ some x = ap (λ (r : Option ℕ × ℕ). r.0) (sym now ∙ first) in
        let behind : rh ≡ x + pages_of k = ap (λ (r : Option ℕ × ℕ). r.1) (sym now ∙ first) in
        let pair = FreeHalves-is_pair s n k x (x + pages_of k) below sum halves in
        true≢false (sym pair ∙ subst (λ y. is_pair s k x y ≡ false) behind (ended x lh))),
)

-- A joint has the page, and is twice as large.
joint_holds :
    (s : Pages) (n k x o l rh p : ℕ)
    → IsJoint s n k x o l rh
    → x ≤ p
    → p < x + pages_of k
    → (l ≤ p) × (p < l + pages_of (k + 1))
joint_holds s n k x o l rh p joint a b =
    let more = twice_pages k joint.pool.above in
    elim joint.which [
      | inl (f, g) ↦ (omega arith, omega (arith, more, joint.behind))
      | inr (f, g) ↦ (omega (arith, joint.behind), omega (arith, more, joint.behind))
    ]

-- `rh` is the page in hand, or a half that an earlier round has left behind.
abbrev pub Behind : Pages → ℕ → ℕ → Type 0
Behind s x rh = (rh ≡ x) ⊎ ((x < rh) × (s.idx rh ≡ 12))

joint-Behind :
    (s : Pages) (n k x o l rh : ℕ) → IsJoint s n k x o l rh → Behind (merge s x k l rh) l rh
joint-Behind s n k x o l rh joint =
    let some_page : 0 < pages_of k = pages_of-pos k joint.pool.above in
    let apart : (rh == l) ≡ false = ground (arith, joint.behind) in
    inr (omega (arith, joint.behind), rw (apart, ==_refl rh) refl)

-- The loop ends at a segment with the page that is not the left one of two free halves, and that is
-- larger than the one in hand when this has a pair at first.
pub join_free-IsJoined :
    (fuel : ℕ) (s : Pages) (n k x p rh0 : ℕ) (lo : Option ℕ) (rh : ℕ)
    → size_vm_sizes ≤ k + fuel
    → IsOpen s n k x
    → k < size_vm_sizes
    → n < 2 ^ 20
    → total s ≡ n
    → Behind s x rh0
    → halves s x k (some x) rh0 ≡ (lo, rh)
    → x ≤ p
    → p < x + pages_of k
    → (j : ℕ) × (y : ℕ) × (k ≤ j)
      × IsJoined (join_free fuel s x k lo rh) n p j y
      × ((l : ℕ) → lo ≡ some l → is_pair s k l rh ≡ true → k < j)
unfolding join_free
join_free-IsJoined zero s n k x p rh0 lo rh enough pool below few sum behind now a b =
    absurd (omega arith)
join_free-IsJoined (suc fuel) s n k x p rh0 none rh enough pool below few sum behind now a b = (
  k,
  x,
  omega arith,
  closed-IsJoined s n k x p rh0 none rh below sum now a b
      (λ l e. absurd (true≢false (sym (ap is_some e)))),
  λ l e h. absurd (true≢false (sym (ap is_some e))),
)
join_free-IsJoined (suc fuel) s n k x p rh0 (some l) rh enough pool below few sum behind now a b =
    elim (Bool-cases (is_pair s k l rh)) [
      | inr e ↦
          let ended : (y : ℕ) → some l ≡ some y → is_pair s k y rh ≡ false =
            λ y f. subst (λ z. is_pair s k z rh ≡ false) (ap or_zero f) e in
          (
            k,
            x,
            omega arith,
            subst (λ t. IsJoined t n p k x) (sym (join_free-closed fuel s k x l rh e))
                (closed-IsJoined s n k x p rh0 (some l) rh below sum now a b ended),
            λ y f h. absurd (true≢false (sym h ∙ ended y f)),
          )
      | inl e ↦
          let ready = subst (λ r. Ready s k x r) now (halves-Ready s n k x pool rh0 behind) in
          let (o, joint) = Ready-IsJoint s n k x l rh pool below few (omega (arith, sum)) e ready in
          let s1 : Pages = merge s x k l rh in
          let r = halves s1 l (k + 1) (some l) rh in
          let (a', b') = joint_holds s n k x o l rh p joint a b in
          let (j, y, more, joined, first) =
            join_free-IsJoined fuel s1 n (k + 1) l p rh r.0 r.1 (omega arith)
              (merge-IsOpen s n k x o l rh joint) joint.small few sum
              (joint-Behind s n k x o l rh joint) refl a' b' in
          (
            j,
            y,
            omega arith,
            subst (λ t. IsJoined t n p j y) (sym (join_free-joined fuel s k x l rh e)) joined,
            λ l' f h. omega arith,
          )
    ]
