-- ===== src/Images/Filter.antt =====
-- internal/controller/oc_get_release_images.go: which images the filter leaves out.
use openshift_upgrade_accele.Prelude.{
  ℕ, String, ◌≡◌, ◌≢◌, refl, ap, ◌↔◌, Bool, true, false, not, ◌&&◌, ◌||◌, Option, none, some, List,
  [], ◌∷◌, ◌++◌, ◌==◌, if◌then◌else◌, keep, contains, codes, arith, eq_iff, Bool-cases, inl, inr,
}
use openshift_upgrade_accele.Cluster.{ReleaseImageTags}
use openshift_upgrade_accele.Images.{
  is_prefix, is_infix, match_string, filter_match, filter_release_images,
}

-- `p` occurs in `s`.
abbrev pub OccursIn : List ℕ → List ℕ → Type 0
OccursIn p s = (before : List ℕ) × (after : List ℕ) × (s ≡ before ++ (p ++ after))

is_prefix_sound : (p s : List ℕ) → is_prefix p s ≡ true → (after : List ℕ) × (s ≡ p ++ after)
is_prefix_sound [] s h = (s, refl)
is_prefix_sound (c ∷ p) [] h = cc
is_prefix_sound (c ∷ p) (d ∷ s) h =
    let (after, e) = is_prefix_sound p s (ground arith) in (after, ground arith)

is_prefix_complete : (p after : List ℕ) → is_prefix p (p ++ after) ≡ true
is_prefix_complete [] after = refl
is_prefix_complete (c ∷ p) after = ground (arith, is_prefix_complete p after)

is_infix_sound : (p s : List ℕ) → is_infix p s ≡ true → OccursIn p s
unfolding is_infix
is_infix_sound p [] h = let (after, e) = is_prefix_sound p [] h in ([], after, e)
is_infix_sound p (d ∷ s) h = elim (Bool-cases (is_prefix p (d ∷ s))) [
  | inl here ↦ let (after, e) = is_prefix_sound p (d ∷ s) here in ([], after, e)
  | inr later ↦
      let (before, after, e) = is_infix_sound p s (ground arith) in
      (d ∷ before, after, ap (λ t. d ∷ t) e)
]

is_infix_of_prefix : (p s : List ℕ) → is_prefix p s ≡ true → is_infix p s ≡ true
unfolding is_infix
is_infix_of_prefix p [] h = h
is_infix_of_prefix p (d ∷ s) h = ground arith

is_infix_complete : (p before after : List ℕ) → is_infix p (before ++ (p ++ after)) ≡ true
unfolding is_infix
is_infix_complete p [] after = is_infix_of_prefix p (p ++ after) (is_prefix_complete p after)
is_infix_complete p (d ∷ before) after = ground (arith, is_infix_complete p before after)

-- The substring test of the filter decides whether the pattern occurs.
is_infix_iff : (p s : List ℕ) → (is_infix p s ≡ true) ↔ OccursIn p s
is_infix_iff p s =
    (is_infix_sound p s, λ (before, after, e). rw e (is_infix_complete p before after))

-- The prefixes of the images that belong to one platform.
abbrev pub platform_prefixes : List String
platform_prefixes =
    "aws-" ∷ "azure-" ∷ "gcp-" ∷ "ibm-" ∷ "ibmcloud-" ∷ "libvirt-" ∷ "nutanix-" ∷ "openstack-"
    ∷ "ovirt-" ∷ "powervs-" ∷ "vsphere-" ∷ []

-- The prefix of a platform itself; `some ""` for one that needs no platform's images.
abbrev pub own_prefix : String → Option String
own_prefix t =
    if t == "None" || t == "BareMetal"
    then some ""
    else if t == "AWS"
    then some "aws-"
    else if t == "Azure"
    then some "azure-"
    else if t == "GCP"
    then some "gcp-"
    else if t == "IBMCloud"
    then some "ibmcloud-"
    else if t == "Libvirt"
    then some "libvirt-"
    else if t == "Nutanix"
    then some "nutanix-"
    else if t == "OpenStack"
    then some "openstack-"
    else if t == "oVirt"
    then some "ovirt-"
    else if t == "PowerVS"
    then some "powervs-"
    else if t == "VSphere"
    then some "vsphere-"
    else none

abbrev pub foreign_prefixes : Option String → Option (List String)
foreign_prefixes none = none
foreign_prefixes (some own) = some (keep (λ p. not (p == own)) platform_prefixes)

if-foreign_prefixes :
    (b : Bool) (x y : Option String)
    → foreign_prefixes (if b then x else y) ≡ (if b then foreign_prefixes x else foreign_prefixes y)
if-foreign_prefixes true x y = refl
if-foreign_prefixes false x y = refl

-- The filter of a platform lists the prefixes of all the other platforms.
filter_match_lem : (t : String) → filter_match t ≡ foreign_prefixes (own_prefix t)
unfolding filter_match
filter_match_lem t = simp if-foreign_prefixes

-- Some other platform's prefix occurs in the name.
abbrev pub IsForeign : String → String → Type 0
IsForeign own name =
    (p : String) × (contains platform_prefixes p ≡ true)
    × (p ≢ own)
    × OccursIn (codes p) (codes name)

module _ (own name : String) where
  match_sound :
      (ps : List String)
      → match_string (keep (λ p. not (p == own)) ps) name ≡ true
      → (p : String) × (contains ps p ≡ true) × (p ≢ own) × OccursIn (codes p) (codes name)
  unfolding match_string
  match_sound [] h = cc
  match_sound (p ∷ ps) h = elim (Bool-cases (not (p == own) && is_infix (codes p) (codes name))) [
    | inl here ↦ (
      p,
      ground (arith, eq_iff p p),
      λ e. ground (arith, eq_iff p own),
      is_infix_sound (codes p) (codes name) (ground arith),
    )
    | inr later ↦
        let (q, listed, other, occurs) = match_sound ps (ground arith) in
        (q, ground arith, other, occurs)
  ]

  match_complete :
      (ps : List String) (p : String)
      → contains ps p ≡ true
      → p ≢ own
      → OccursIn (codes p) (codes name)
      → match_string (keep (λ q. not (q == own)) ps) name ≡ true
  unfolding match_string
  match_complete [] p listed other occurs = cc
  match_complete (q ∷ ps) p listed other occurs = elim (Bool-cases (q == p)) [
    | inl same ↦
        let e : q ≡ p = (eq_iff q p).0 same in
        let found = (is_infix_iff (codes p) (codes name)).1 occurs in
        rw e (ground (arith, eq_iff p own, found))
    | inr differs ↦
        let rest = match_complete ps p (ground arith) other occurs in ground (arith, rest)
  ]

-- On a known platform the filter leaves out exactly the images in whose name the prefix of another
-- platform occurs, anywhere in the name, and keeps the others in their order.
pub filter_release_images_lem :
    (t : String) {own : String}
    → own_prefix t ≡ some own
    → (blocked : String → Bool) × ((name : String) → (blocked name ≡ true) ↔ IsForeign own name)
      × ((images : List ReleaseImageTags)
          → filter_release_images images t ≡ keep (λ item. not (blocked item.name)) images)
unfolding filter_release_images
filter_release_images_lem t {own} known = (
  match_string (keep (λ p. not (p == own)) platform_prefixes),
  λ name. (
    match_sound own name platform_prefixes,
    λ (p, listed, other, occurs). match_complete own name platform_prefixes p listed other occurs,
  ),
  λ images. rw (filter_match_lem t, known, filter_release_images) refl,
)

-- On any other platform no image is left out.
pub filter_release_images_unknown :
    (t : String) (images : List ReleaseImageTags)
    → own_prefix t ≡ none
    → filter_release_images images t ≡ images
unfolding filter_release_images
filter_release_images_unknown t images unknown =
    rw (filter_match_lem t, unknown, filter_release_images) refl
