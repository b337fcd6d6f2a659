-- ===== src/Task/Inv/Same.antt =====
-- A task object that is changed only in what the discipline of the heap does not look at.
use mathlib.Core.Path.{fun_ext}
use asyncplusplus_1_1_annota.Base.{
  ℕ, ◌≡◌, false, Option, none, some, some_inj, [], refl, sym, ap, ◌∙◌, subst, Bool-cases, inl, inr,
  ==_iff, ◌==◌,
}
use asyncplusplus_1_1_annota.Task.Types.{is_finished, Task, World}
use asyncplusplus_1_1_annota.Task.Heap.{store}
use asyncplusplus_1_1_annota.Task.Inv.{Inv, IsSound, func_at, finished_at, conts_at}

module _ {V E : Type 0} {w : World V E} (inv : Inv w) (t : ℕ) (k k' : Task V E)
    (there : w.task t ≡ some k) (funcs : k'.func ≡ k.func) (conts : k'.conts ≡ k.conts)
    (states : k'.state ≡ k.state) (sound' : IsSound k') where
  open inv use {sound, bound, handed, kept, parent, goal, one_goal}

  -- What is read of a task by its address is what it was.
  same-at :
      {A : Type 0} (read : Option (Task V E) → A)
      → read (some k') ≡ read (some k)
      → (c : ℕ) → read ((store w t k').task c) ≡ read (w.task c)
  same-at read same c = elim (Bool-cases (c == t)) [
    | inl here ↦
        let e : c ≡ t = (==_iff c t).0 here in
        rw here (same ∙ ap read (sym there ∙ ap w.task (sym e)))
    | inr other ↦ rw other refl
  ]

  same-func : (c : ℕ) → func_at (store w t k') c ≡ func_at w c
  same-func = same-at (λ o. elim o [ none ↦ none | some q ↦ q.func ]) funcs

  same-finished : finished_at (store w t k') ≡ finished_at w
  same-finished = fun_ext (
      same-at (λ o. elim o [ none ↦ false | some q ↦ is_finished q.state ]) (ap is_finished states))

  same-conts : (c : ℕ) → conts_at (store w t k') c ≡ conts_at w c
  same-conts = same-at (λ o. elim o [ none ↦ [] | some q ↦ q.conts ]) conts

  pub same-Inv : Inv (store w t k')
  same-Inv = record {
    sound = λ c q e. elim (Bool-cases (c == t)) [
      | inl here ↦ subst IsSound (some_inj (rw here at e)) sound'
      | inr other ↦ sound c q (rw other at e)
    ];
    bound = λ c q e. elim (Bool-cases (c == t)) [
      | inl here ↦ rw ((==_iff c t).0 here) (bound t k there)
      | inr other ↦ bound c q (rw other at e)
    ];
    handed = λ c. rw (same-func c, same-finished) (handed c);
    kept = λ p c. rw (same-conts p, same-func c, same-finished) (kept p c);
    parent = λ c p f e h. elim (Bool-cases (p == t)) [
      | inl here ↦ rw here (λ z. cc)
      | inr other ↦ rw other (parent c p f (sym (same-func c) ∙ e) h)
    ];
    goal = λ c u f e h.
        let (q, at, un) = goal c u f (sym (same-func c) ∙ e) h in
        elim (Bool-cases (u == t)) [
          | inl here ↦
              let same : q ≡ k = some_inj (sym at ∙ ap w.task ((==_iff u t).0 here) ∙ there) in
              (k', rw here refl, states ∙ ap (λ x. x.state) (sym same) ∙ un)
          | inr other ↦ (q, rw other at, un)
        ];
    one_goal = λ c d u f g e e' h h'.
        one_goal c d u f g (sym (same-func c) ∙ e) (sym (same-func d) ∙ e') h h';
  }
