-- ===== src/Store/Write/Valid.antt =====
-- All that is stored has been validated, and each stored version can be restored.
use lite_settings.Base.{
  ℕ, suc, ◌≤◌, ◌≡◌, refl, sym, ◌∙◌, ap, List, [], ◌∷◌, some, arith, length, All, Result, ok, err,
  ◌>>=◌, subst, Bool-cases, inl, inr, ◌==◌,
}
use lite_settings.Base.Int.{ℤ, pos}
use lite_settings.Base.Text.{Text, text_eq, text_eq_iff}
use lite_settings.Store.Validate.{
  StoreError, begin, select_version, Change, Parsers, validate_key, validate_change, validate_value,
}
use lite_settings.Store.Tables.{
  bind, reads, Config, Op, set, delete, rollback, HistoryEntry, Tables, Env, find_config, of_key,
  find_version, run,
}
use lite_settings.Store.Tables.Rows.{Numbered, find_config-upsert_config}
use lite_settings.Store.Write.{
  WriteResult, Resolver, Outcome, write, write_tx, finish_tx, checked, set_config, remove_config,
  rollback_config, resolve_rollback,
}
use lite_settings.Store.Write.Wrote.{begun_ok, write_tx_ok, config_row}
use lite_settings.Store.Write.Invariant.{IsConsistent, finish_tx-keeps}
use lite_settings.Store.Write.Effect.{IsWorking, after, write-succeeds}

-- What every stored row has passed.
pub record RowValid (p : Parsers) (h : HistoryEntry) : Type 0 where
  pub key : validate_key h.key ≡ ok tt
  pub value : validate_value p h.value h.format ≡ ok tt
  pub change : validate_change (record { author = h.created_by; comment = h.comment }) ≡ ok tt

abbrev pub AllValid : Parsers → Tables → Type 0
AllValid p t = All (RowValid p) t.history

write-AllValid :
    (e : Env) (p : Parsers) (key : Text) (op : Op) (c : Change) (resolve : Resolver) (t : Tables)
    → AllValid p t
    → AllValid p (write e p key op c resolve t).0
unfolding write
write-AllValid e p key op c resolve t v =
    checked-valid (validate_key key) (validate_change c) refl refl
  where
    added :
        validate_key key ≡ ok tt
        → validate_change c ≡ ok tt
        → (t' : Tables) (w : WriteResult)
        → bind (reads (λ u. run e begin)) (λ _. write_tx e p key op c resolve) t ≡ (t', ok w)
        → AllValid p t'
    added hk hc t' w q =
        let d =
          write_tx_ok e p key op c resolve t t' w
            (begun_ok e (write_tx e p key op c resolve) t t' w q) in
        subst (All (RowValid p)) (sym d.history)
          (record { key = hk; value = d.valid; change = hc }, v)

    checked-valid :
        (rk rc : Result StoreError (Unit {0}))
        → validate_key key ≡ rk
        → validate_change c ≡ rc
        → AllValid p
            (checked (rk >>= λ _. rc) t (
              finish_tx e.commit_result t
                (bind (reads (λ u. run e begin)) (λ _. write_tx e p key op c resolve) t))).0
    checked-valid (err x) rc hk hc = v
    checked-valid (ok _) (err x) hk hc = v
    checked-valid (ok _) (ok _) hk hc =
        finish_tx-keeps (AllValid p) t v e.commit_result _ (added hk hc)

-- Whatever the three operations are called with, every row that they leave in the history has a
-- valid key, a value that is valid in its format, and audit fields that fit their columns, if all
-- rows had before.
pub operations-AllValid :
    (e : Env) (p : Parsers) (key value format : Text) (to_version : ℤ) (c : Change) (t : Tables)
    → AllValid p t
    → AllValid p (set_config e p key value format c t).0
      × AllValid p (remove_config e p key c t).0
      × AllValid p (rollback_config e p key to_version c t).0
unfolding set_config remove_config rollback_config
operations-AllValid e p key value format to_version c t v = (
  write-AllValid e p key set c _ t v,
  write-AllValid e p key delete c _ t v,
  write-AllValid e p key rollback c _ t v,
)

version-valid :
    (p : Parsers) (key : Text) (n : ℕ) (hs : List HistoryEntry) (h : HistoryEntry)
    → All (RowValid p) hs
    → find_version n (of_key key hs) ≡ some h
    → RowValid p h × (h.key ≡ key)
unfolding find_version of_key
version-valid p key n [] h v q = cc
version-valid p key n (g ∷ gs) h v q = elim (Bool-cases (text_eq g.key key)) [
  | inl e ↦ elim (Bool-cases (g.version == n)) [
    | inl e' ↦
        let same : g ≡ h = ground arith in
        subst (λ x. RowValid p x × (x.key ≡ key)) same (v.0, (text_eq_iff g.key key).0 e)
    | inr e' ↦ version-valid p key n gs h v.1 (ground arith)
  ]
  | inr e ↦ version-valid p key n gs h v.1 (ground arith)
]

find_version-Numbered :
    (n : ℕ) (hs : List HistoryEntry)
    → Numbered hs
    → 1 ≤ n
    → n ≤ length hs
    → (h : HistoryEntry) × (find_version n hs ≡ some h)
unfolding find_version
find_version-Numbered n [] v l u = absurd (omega arith)
find_version-Numbered n (g ∷ gs) v l u = elim (Bool-cases (g.version == n)) [
  | inl e ↦ (g, rw e)
  | inr e ↦ let (h, q) = find_version-Numbered n gs v.1 l (ground arith) in (h, rw (e, q))
]

-- On a consistent store of valid rows whose engine works, each of the versions 1, …, n that the
-- history of a key has can be restored, also after the key was deleted: Rollback with a valid
-- change succeeds and the key's current row has that version's value and format.
pub rollback_config-succeeds :
    (e : Env) (p : Parsers) (key : Text) (n : ℕ) (c : Change) (t : Tables)
    → IsWorking e
    → IsConsistent t
    → AllValid p t
    → validate_change c ≡ ok tt
    → 1 ≤ n
    → n ≤ length (of_key key t.history)
    → (h : HistoryEntry) × (row : Config) × (find_version n (of_key key t.history) ≡ some h)
      × ((rollback_config e p key (pos n) c t).1
          ≡ ok (record {
            revision = suc (length t.history);
            version = suc (length (of_key key t.history));
          }))
      × (find_config key (rollback_config e p key (pos n) c t).0.configs ≡ some row)
      × (row.value ≡ h.value)
      × (row.format ≡ h.format)
unfolding rollback_config resolve_rollback after
rollback_config-succeeds e p key n c t w v a hc l u =
    let (h, q) = find_version-Numbered n (of_key key t.history) (v.numbered key) l u in
    let (valid, same) = version-valid p key n t.history h a q in
    let done =
      write-succeeds e p key rollback c (resolve_rollback e key (pos n)) t (h.value, h.format) w v
        (subst (λ k. validate_key k ≡ ok tt) same valid.key) hc
        (ground (arith, w.accepts select_version, q)) valid.value in
    (
      h,
      config_row e key c (h.value, h.format),
      q,
      ap (λ (o : Outcome). o.1) done,
      ap (λ (o : Outcome). find_config key o.0.configs) done
          ∙ ground (
            arith,
            find_config-upsert_config key (config_row e key c (h.value, h.format)) t.configs,
            text_eq_iff key key,
          ),
      refl,
      refl,
    )
