-- ===== src/Compat/Fellows.antt =====
-- `compat_datafellows`: the first row of the table decides.
use libopenssh.Base.{
  none, ◌≡◌, ◌≢◌, ◌⊎◌, inl, inr, refl, Bytes, List, [], ◌∷◌, ◌++◌, Option, some, false, codes, ap,
}
use libopenssh.Match.{
  Verdict, negative, positive, unmatched, match_pattern_list, list_loop, extract, skip_comma,
  match_pattern, match_from, match_one, find_literal, find_any, at_end,
}
use libopenssh.Match.PatternList.{judge, fields}
use libopenssh.Match.Verdicts.{match_pattern_list-judge}
use libopenssh.Compat.Table.{Fellow, Bugs, check, new_openssh, bug_dynamic_rport}
use libopenssh.Compat.{process, compat_datafellows}

-- What the fields of a row's list say of a version.
abbrev pub verdict_on : Bytes → Fellow → Verdict
verdict_on version row = judge false version unmatched (fields row.pat)

abbrev pub Rejected : Bytes → List Fellow → Type 0
Rejected version [] = Unit {0}
Rejected version (row ∷ rows) = (verdict_on version row ≢ positive) × Rejected version rows

-- The flags of the first row that takes the version.
pub record Decided (version : Bytes) (rows : List Fellow) (bugs : Bugs) : Type 0 where
  pub before : List Fellow
  pub row : Fellow
  pub behind : List Fellow
  pub splits : rows ≡ before ++ row ∷ behind
  pub rejected : Rejected version before
  pub accepted : verdict_on version row ≡ positive
  pub flags : bugs ≡ row.bugs

abbrev pub Classified : Bytes → List Fellow → Option Bugs → Type 0
Classified version rows out =
    (bugs : Bugs) × (out ≡ some bugs)
    × (Decided version rows bugs ⊎ (Rejected version rows × (bugs ≡ [])))

later :
    (version : Bytes) (row : Fellow) (rows : List Fellow) (out : Option Bugs)
    → verdict_on version row ≢ positive
    → Classified version rows out
    → Classified version (row ∷ rows) out
later version row rows out h (bugs, e, inr (r, k)) = (bugs, e, inr ((h, r), k))
later version row rows out h (bugs, e, inl d) = (
  bugs,
  e,
  inl (record {
    before = row ∷ d.before;
    row = d.row;
    behind = d.behind;
    splits = ap (◌∷◌ row) d.splits;
    rejected = (h, d.rejected);
    accepted = d.accepted;
    flags = d.flags;
  }),
)

process-Classified :
    (version : Bytes) (rows : List Fellow) → Classified version rows (process version rows)
unfolding process
process-Classified version [] = ([], refl, inr (tt, refl))
process-Classified version (row ∷ rows) =
    rw (match_pattern_list-judge version row.pat false, process)
      (go (process-Classified version rows) (verdict_on version row) refl)
  where
    go :
        Classified version rows (process version rows)
        → (v : Verdict) → verdict_on version row ≡ v
        → Classified version (row ∷ rows) (elim (some v) [
          | none ↦ none
          | some positive ↦ some row.bugs
          | some negative ↦ process version rows
          | some unmatched ↦ process version rows
        ])
    go c negative e = later version row rows _ (λ k. cc (e, k)) c
    go c unmatched e = later version row rows _ (λ k. cc (e, k)) c
    go c positive e = (
      row.bugs,
      refl,
      inl (record {
        before = [];
        row = row;
        behind = rows;
        splits = refl;
        rejected = tt;
        accepted = e;
        flags = refl;
      }),
    )

-- compat_datafellows ends on every version, with the flags of the first row of its table that has a
-- positive verdict on the version, and with no flag if no row has one.
pub compat_datafellows-Classified :
    (version : Bytes) → Classified version check (compat_datafellows version)
unfolding compat_datafellows
compat_datafellows-Classified version = process-Classified version check

-- A peer whose version starts with OpenSSH_4 gets no flag, one with OpenSSH_5 the flags
-- SSH_NEW_OPENSSH and SSH_BUG_DYNAMIC_RPORT, and one with OpenSSH_6 the first of these alone,
-- whatever follows.
pub compat_datafellows_families :
    (s : Bytes)
    → (compat_datafellows (codes "OpenSSH_4" ++ s) ≡ some [])
      × (compat_datafellows (codes "OpenSSH_5" ++ s) ≡ some (new_openssh ∷ bug_dynamic_rport ∷ []))
      × (compat_datafellows (codes "OpenSSH_6" ++ s) ≡ some (new_openssh ∷ []))
unfolding compat_datafellows process check match_pattern_list list_loop extract skip_comma
    match_pattern match_from match_one find_literal find_any at_end
compat_datafellows_families s = (refl, refl, refl)
