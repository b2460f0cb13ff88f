-- ===== src/Apply/Records/Written.antt =====
-- A record is written exactly as long as the writer does not hold it.
use regied.Prelude.{
  String, ◌≡◌, refl, ◌∙◌, ap, Bool, true, false, not, Option, none, some, ◌=ˢ◌, arith, eq_iff,
}
use regied.Ddns.{Record, Provider, Writer, record_eq, last, holds, write}
use regied.Ddns.Memory.{record_eq_iff, holds-write}
use regied.Apply.Records.{reason_after, write_reason}

same_content : (a b : Record) → record_eq a b ≡ true → (a.content =ˢ b.content) ≡ true
same_content a b h =
    (eq_iff a.content b.content).1 (ap (λ (r : Record). r.content) ((record_eq_iff a b).0 h))

reason_after-holds :
    (o : Option Record) (r : Record)
    → (reason_after o r).0
      ≡ not (elim o as (λ _. Bool) [ none ↦ false | some written ↦ record_eq written r ])
unfolding reason_after
reason_after-holds none r = refl
reason_after-holds (some a) r = ground (arith, same_content a r)

-- A record is to be written exactly if the writer does not hold it, in content or in a declared
-- property.
pub write_reason-holds : (w : Writer) (r : Record) → (write_reason w r).0 ≡ not (holds w r)
unfolding write_reason holds
write_reason-holds w r = reason_after-holds (last w r) r

-- A record that was written without an error is not written again while it stays the same.
pub write_reason-write :
    {W : Type 0} (provider : Provider W) (token : String) (r : Record) (w : Writer) (s : W)
    → (write provider token r w s).0 ≡ none
    → (write_reason (write provider token r w s).1 r).0 ≡ false
write_reason-write provider token r w s done =
    write_reason-holds (write provider token r w s).1 r
    ∙ ap not (holds-write provider token r w s done)
