-- ===== src/Core/Context/Order.antt =====
-- The order of the sources, against a registry that only remembers the order of registrations.
use glados_docker.Common.{
  Bool, List, Option-cases, String, [], all_of, ap, append-cons, append-nil, arith, if◌then◌else◌,
  inl, inr, keep, leb, not, refl, sym, true, ℕ, ◌&&◌, ◌++◌, ◌==◌, ◌∙◌, ◌∷◌, ◌≡◌, ◌≤◌,
}
use glados_docker.Core.Context.{
  Content, ContextEntry, build_combined_prompt, build_system_messages, collect_parts, content_of,
  has_name, insert_priority, join_parts, register, sort_priority, unregister,
}

pub data Op : Type 0 where
  register_op : String → String → ℕ → Op
  unregister_op : String → Op

unfoldable pub build : List ContextEntry → List Op → List ContextEntry
unfolding register unregister
build sources [] = sources
build sources (register_op name source priority ∷ ops) =
    build (register name source priority sources) ops
build sources (unregister_op name ∷ ops) = build (unregister name sources).1 ops

-- The registry: the last registration of each name, in the order of these registrations.
abbrev pub registry : List ContextEntry → List Op → List ContextEntry
registry es [] = es
registry es (register_op name source priority ∷ ops) =
    registry
      (keep (λ e. not (has_name name e)) es
        ++ record { name = name; source = source; priority = priority } ∷ [])
      ops
registry es (unregister_op name ∷ ops) = registry (keep (λ e. not (has_name name e)) es) ops

abbrev pub at_priority : ℕ → ContextEntry → Bool
at_priority p e = e.priority == p

-- The highest priority first.
abbrev pub falling : List ContextEntry → Bool
falling [] = true
falling (e ∷ es) = all_of (λ f. leb f.priority e.priority) es && falling es

keep-append :
    (q : ContextEntry → Bool) (xs ys : List ContextEntry)
    → keep q (xs ++ ys) ≡ keep q xs ++ keep q ys
keep-append q [] ys = refl
keep-append q (x ∷ xs) ys = ground (arith, keep-append q xs ys)

keep-keep :
    (q r : ContextEntry → Bool) (xs : List ContextEntry) → keep q (keep r xs) ≡ keep r (keep q xs)
keep-keep q r [] = refl
keep-keep q r (x ∷ xs) = ground (arith, keep-keep q r xs)

-- The sort keeps the order of one priority.
keep-insert :
    (p : ℕ) (e : ContextEntry) (es : List ContextEntry)
    → keep (at_priority p) (insert_priority e es) ≡ keep (at_priority p) (e ∷ es)
unfolding insert_priority
keep-insert p e [] = refl
keep-insert p e (f ∷ es) = ground (arith, keep-insert p e es)

keep-sort :
    (p : ℕ) (es : List ContextEntry)
    → keep (at_priority p) (sort_priority es) ≡ keep (at_priority p) es
unfolding sort_priority
keep-sort p [] = refl
keep-sort p (e ∷ es) =
    keep-insert p e (sort_priority es)
    ∙ ap (λ xs. if at_priority p e then e ∷ xs else xs) (keep-sort p es)

all_of-insert :
    (q : ContextEntry → Bool) (e : ContextEntry) (es : List ContextEntry)
    → all_of q (insert_priority e es) ≡ (q e && all_of q es)
unfolding insert_priority
all_of-insert q e [] = refl
all_of-insert q e (f ∷ es) = ground (arith, all_of-insert q e es)

below_trans :
    (m n : ℕ) (es : List ContextEntry)
    → m ≤ n
    → all_of (λ f. leb f.priority m) es ≡ true
    → all_of (λ f. leb f.priority n) es ≡ true
below_trans m n [] h a = refl
below_trans m n (e ∷ es) h a = ground (arith, below_trans m n es h)

falling-insert :
    (e : ContextEntry) (es : List ContextEntry)
    → falling es ≡ true
    → falling (insert_priority e es) ≡ true
unfolding insert_priority
falling-insert e [] h = refl
falling-insert e (f ∷ es) h = ground (
  arith,
  falling-insert e es,
  below_trans f.priority e.priority es,
  all_of-insert (λ g. leb g.priority f.priority) e es,
)

falling-sort : (es : List ContextEntry) → falling (sort_priority es) ≡ true
unfolding sort_priority
falling-sort [] = refl
falling-sort (e ∷ es) = falling-insert e (sort_priority es) (falling-sort es)

all_of-keep :
    (q r : ContextEntry → Bool) (es : List ContextEntry)
    → all_of q es ≡ true
    → all_of q (keep r es) ≡ true
all_of-keep q r [] h = refl
all_of-keep q r (e ∷ es) h = ground (arith, all_of-keep q r es)

falling-keep :
    (r : ContextEntry → Bool) (es : List ContextEntry)
    → falling es ≡ true
    → falling (keep r es) ≡ true
falling-keep r [] h = refl
falling-keep r (e ∷ es) h =
    ground (arith, falling-keep r es, all_of-keep (λ f. leb f.priority e.priority) r es)

-- The same sources at each priority, in the same order.
abbrev Agrees : List ContextEntry → List ContextEntry → Type 0
Agrees xs ys = (p : ℕ) → keep (at_priority p) xs ≡ keep (at_priority p) ys

keep-Agrees :
    (r : ContextEntry → Bool) (xs ys : List ContextEntry)
    → Agrees xs ys
    → Agrees (keep r xs) (keep r ys)
keep-Agrees r xs ys a p =
    keep-keep (at_priority p) r xs ∙ ap (keep r) (a p) ∙ sym (keep-keep (at_priority p) r ys)

register-Agrees :
    (name source : String) (priority : ℕ) (xs ys : List ContextEntry)
    → Agrees xs ys
    → Agrees (register name source priority xs) (
        keep (λ e. not (has_name name e)) ys
        ++ record { name = name; source = source; priority = priority } ∷ [])
unfolding register
register-Agrees name source priority xs ys a p =
    let r : ContextEntry → Bool = λ e. not (has_name name e) in
    let new : List ContextEntry =
      record { name = name; source = source; priority = priority } ∷ [] in
    keep-sort p (keep r xs ++ new)
    ∙ keep-append (at_priority p) (keep r xs) new
    ∙ ap (λ zs. zs ++ keep (at_priority p) new) (keep-Agrees r xs ys a p)
    ∙ sym (keep-append (at_priority p) (keep r ys) new)

build-Agrees :
    (ops : List Op) (xs ys : List ContextEntry)
    → Agrees xs ys
    → Agrees (build xs ops) (registry ys ops)
unfolding build unregister
build-Agrees [] xs ys a = a
build-Agrees (register_op name source priority ∷ ops) xs ys a =
    build-Agrees ops (register name source priority xs)
      (keep (λ e. not (has_name name e)) ys
        ++ record { name = name; source = source; priority = priority } ∷ [])
      (register-Agrees name source priority xs ys a)
build-Agrees (unregister_op name ∷ ops) xs ys a =
    let r : ContextEntry → Bool = λ e. not (has_name name e) in
    build-Agrees ops (keep r xs) (keep r ys) (keep-Agrees r xs ys a)

build-falling :
    (ops : List Op) (xs : List ContextEntry) → falling xs ≡ true → falling (build xs ops) ≡ true
unfolding build register unregister
build-falling [] xs h = h
build-falling (register_op name source priority ∷ ops) xs h =
    build-falling ops
      (sort_priority (
        keep (λ e. not (has_name name e)) xs
        ++ record { name = name; source = source; priority = priority } ∷ []))
      (falling-sort (
        keep (λ e. not (has_name name e)) xs
        ++ record { name = name; source = source; priority = priority } ∷ []))
build-falling (unregister_op name ∷ ops) xs h =
    build-falling ops (keep (λ e. not (has_name name e)) xs)
      (falling-keep (λ e. not (has_name name e)) xs h)

-- After any registrations and removals, starting with no source: the priorities fall along the
-- sources, and those of each priority are the last registrations of their names that were not
-- removed, in the order in which they were made.
pub build-registry :
    (ops : List Op) (p : ℕ)
    → (falling (build [] ops) ≡ true)
      × (keep (at_priority p) (build [] ops) ≡ keep (at_priority p) (registry [] ops))
build-registry ops p = (build-falling ops [] refl, build-Agrees ops [] [] (λ q. refl) p)

collect-messages :
    (call : String → Content) (sources : List ContextEntry) (parts : List String)
    → collect_parts call sources parts ≡ parts ++ build_system_messages call sources
unfolding collect_parts build_system_messages
collect-messages call [] parts = sym (append-nil parts)
collect-messages call (e ∷ sources) parts = elim (Option-cases (content_of (call e.source))) [
  | inl silent ↦
      rw (silent, collect_parts, build_system_messages) (collect-messages call sources parts)
  | inr (t, said) ↦
      rw (said, collect_parts, build_system_messages)
        (collect-messages call sources (parts ++ t ∷ [])
          ∙ append-cons parts t (build_system_messages call sources))
]

-- The combined prompt is the contents of the system messages, joined; there is none where no source
-- has content, and a source that raises is skipped by both.
pub combined-messages :
    (call : String → Content) (separator : String) (sources : List ContextEntry)
    → build_combined_prompt call separator sources
      ≡ join_parts separator (build_system_messages call sources)
unfolding build_combined_prompt
combined-messages call separator sources =
    ap (join_parts separator) (collect-messages call sources [])
