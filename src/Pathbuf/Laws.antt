-- ===== src/Pathbuf/Laws.antt =====
-- The comparison, the parent and the child of paths of src/pathbuf.c.
use eedox.Base.{
  ◌≡◌, ◌↔◌, inl, inr, refl, sym, ap, ap₂, ◌∙◌, Bool, true, false, ◌&&◌, ◌||◌, not, List, [], ◌∷◌,
  ◌++◌, arith, ◌==◌, if◌then◌else◌, ==_iff, Bool-cases, length, some, get_elem?, length-append,
}
use eedox.Mq.{same_text}
use eedox.Mq.Open.{same_text_refl, same_text-eq}
use eedox.Pathbuf.{
  Name, Pathbuf, drop_last, same_fields, same_flag, pathbuf_len, pathbuf_cmp, pathbuf_name,
  pathbuf_parent, pathbuf_child,
}

same_fields-eq : (fs gs : List Name) → length fs ≡ length gs → same_fields fs gs ≡ true → fs ≡ gs
unfolding same_fields
same_fields-eq [] [] l h = refl
same_fields-eq [] (g ∷ gs) l h = absurd (omega (arith, l))
same_fields-eq (f ∷ fs) [] l h = absurd (omega (arith, l))
same_fields-eq (f ∷ fs) (g ∷ gs) l h = elim (Bool-cases (same_text f g)) [
  | inl e ↦
      ap₂ (λ x xs. x ∷ xs) (same_text-eq f g e)
        (same_fields-eq fs gs (omega (arith, l)) (sym (ap (λ b. b && same_fields fs gs) e) ∙ h))
  | inr e ↦ absurd (cc (sym (ap (λ b. b && same_fields fs gs) e) ∙ h))
]

same_fields_refl : (fs : List Name) → same_fields fs fs ≡ true
unfolding same_fields
same_fields_refl [] = refl
same_fields_refl (f ∷ fs) = rw (same_text_refl f) (same_fields_refl fs)

same_flag-eq : (a b : Bool) → same_flag a b ≡ true → a ≡ b
same_flag-eq true true h = refl
same_flag-eq true false h = cc
same_flag-eq false true h = cc
same_flag-eq false false h = refl

same_flag_refl : (a : Bool) → same_flag a a ≡ true
same_flag_refl true = refl
same_flag_refl false = refl

all_of :
    (l a b : Bool) {f : Bool}
    → (if (not l || not a) || not b then false else f) ≡ true
    → (l ≡ true) × (a ≡ true) × (b ≡ true) × (f ≡ true)
all_of true true true h = (refl, refl, refl, h)
all_of true true false h = absurd cc
all_of true false b h = absurd cc
all_of false a b h = absurd cc

to_all :
    {l a b f : Bool}
    → l ≡ true
    → a ≡ true
    → b ≡ true
    → f ≡ true
    → (if (not l || not a) || not b then false else f) ≡ true
to_all l a b f = rw (l, a, b) f

get_elem?-append : (fs : List Name) (g : Name) → get_elem? (fs ++ (g ∷ [])) (length fs) ≡ some g
get_elem?-append [] g = refl
get_elem?-append (f ∷ fs) g = get_elem?-append fs g

drop_last-append : (fs : List Name) (g : Name) → drop_last (fs ++ (g ∷ [])) ≡ fs
unfolding drop_last
drop_last-append [] g = refl
drop_last-append (f ∷ []) g = refl
drop_last-append (f ∷ f' ∷ fs) g = ap (λ l. f ∷ l) (drop_last-append (f' ∷ fs) g)

-- `pathbuf_cmp` tells whether two paths have the same fields, and are both absolute or both relative,
-- and go up as far.
pub cmp-eq :
    (p q : Pathbuf)
    → (pathbuf_cmp p q ≡ true)
      ↔ ((p.fields ≡ q.fields) × (p.is_absolute ≡ q.is_absolute) × (p.back ≡ q.back))
unfolding pathbuf_cmp pathbuf_len
cmp-eq p q = (
  (λ h.
      let (l, a, b, f) =
        all_of (length p.fields == length q.fields) (same_flag p.is_absolute q.is_absolute)
          (p.back == q.back) h in
      (
        same_fields-eq p.fields q.fields ((==_iff (length p.fields) (length q.fields)).0 l) f,
        same_flag-eq p.is_absolute q.is_absolute a,
        (==_iff p.back q.back).0 b,
      )),
  λ (f, a, b).
      to_all ((==_iff (length p.fields) (length q.fields)).1 (ap length f))
        (ap (λ x. same_flag x q.is_absolute) a ∙ same_flag_refl q.is_absolute)
        ((==_iff p.back q.back).1 b)
        (ap (λ x. same_fields x q.fields) f ∙ same_fields_refl q.fields),
)

-- The parent of the child of a path is the path, as a directory, and the name of the child is the
-- one given.
pub parent-child :
    (p : Pathbuf) (name : Name) (expldir : Bool)
    → (pathbuf_parent (pathbuf_child p name expldir) ≡ some (record p { is_expldir = true }))
      × (pathbuf_name (pathbuf_child p name expldir) ≡ some name)
unfolding pathbuf_parent pathbuf_child pathbuf_name pathbuf_len
parent-child p name expldir =
    let e : (length (p.fields ++ (name ∷ [])) == 0) ≡ false =
      ground (arith, length-append p.fields (name ∷ [])) in
    (
      rw e (
          ap (λ l. some (record p { fields = l; is_expldir = true }))
            (drop_last-append p.fields name)),
      rw e (
          ap (get_elem? (p.fields ++ (name ∷ [])))
            (omega (arith, length-append p.fields (name ∷ [])))
          ∙ get_elem?-append p.fields name),
    )
