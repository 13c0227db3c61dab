-- ===== src/Entry/Tests.antt =====
-- What a field shows, and the theorem about it at a paste.
use vidvnc.Base.{◌≡◌, refl, ◌-◌, ◌++◌, codes, length, take, arith, ◌≤◌, ◌+◌}
use vidvnc.Entry.Symbols.{
  symbols_in, accept, format_password_entry, format_segmented_password_entry,
}
use vidvnc.Entry.Kept.{accept-kept}

runs : Unit {0}
unfolding symbols_in accept format_password_entry format_segmented_password_entry
runs = tt

typed : format_password_entry (codes "abc2d") 5 ≡ (codes "ABC2-D", 6)
unfolding runs
typed = refl

pasted :
    format_segmented_password_entry (codes "ABC-xxyyzzww-2345") 12 12 ≡ (codes "ABCX-2345", 4, 4)
unfolding runs
pasted = refl

few : length (symbols_in (codes "ABC-")) + length (symbols_in (codes "-2345")) ≤ 8
unfolding runs
few = omega arith

accept-kept_example :
    (accept
      (codes "ABC-" ++ (codes "xxyyzzww" ++ codes "-2345"))
      (length (codes "ABC-" ++ codes "xxyyzzww"))).kept
    ≡ symbols_in (codes "ABC-")
      ++ (take
            (8 - length (symbols_in (codes "ABC-")) - length (symbols_in (codes "-2345")))
            (symbols_in (codes "xxyyzzww"))
          ++ symbols_in (codes "-2345"))
accept-kept_example = accept-kept (codes "ABC-") (codes "xxyyzzww") (codes "-2345") few
