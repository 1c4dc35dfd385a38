-- ===== src/Write/Sequence.antt =====
-- The sequence numbers of the stored documents along a run of writes (docs.go).
use osmem.Prelude.{ℕ, String, Bool, some, ◌≡◌, arith, ◌<◌}
use osmem.Prelude.Int.{ℤ, pos, pos_part, ◌≤ℤ◌, max_int64, inc64-lt}
use osmem.Prelude.Dict.{string_keys, Dict, lookup}
use osmem.Error.{ok}
use osmem.Version.{Doc, DocParams}
use osmem.Index.{Engine}
use osmem.Tombstone.{Registry}
use osmem.Write.{State, put_doc}
use osmem.Write.Delete.{delete_doc, DeleteOutcome}
use osmem.Write.Effect.{PutEffect, put_doc-PutEffect}
use osmem.Write.Gone.{Reaches, DeleteEffect, delete_doc-DeleteEffect}
use text.Mathlib.TextEquality.{eq_iff}

-- A write that succeeds and has a next sequence number to take.
pub data Wrote (fuel : ℕ) (e : Engine) (reg : Registry) (s new : State) : Type 0 where
  put :
      (id source : String) (dp : DocParams) (auto_id created : Bool) (d : Doc)
      → pos_part s.index.seq_no < max_int64
      → put_doc fuel e reg s id source dp auto_id ≡ (new, ok (d, created))
      → Wrote fuel e reg s new
  deleted :
      (id : String) (dp : DocParams) (routed : Bool) (out : DeleteOutcome)
      → pos_part s.index.seq_no < max_int64
      → pos 0 ≤ℤ s.index.gc_deletes
      → Reaches reg s id dp routed
      → delete_doc fuel e reg s id dp routed ≡ (new, ok out)
      → Wrote fuel e reg s new

pub data Writes (fuel : ℕ) (e : Engine) (reg : Registry) : State → State → Type 0 where
  no_write : {s : State} → Writes fuel e reg s s
  then_write :
      {s t u : State} → Writes fuel e reg s t → Wrote fuel e reg t u → Writes fuel e reg s u

-- No stored document has a sequence number above the last one, and no two have the same.
pub record IsNumbered (docs : Dict String Doc) (last : ℤ) : Type 0 where
  pub bounded : (id : String) (d : Doc) → lookup id docs ≡ some d → d.seq_no ≤ℤ last
  pub distinct :
      (i j : String) (c d : Doc)
      → lookup i docs ≡ some c
      → lookup j docs ≡ some d
      → c.seq_no ≡ d.seq_no
      → i ≡ j

PutEffect-IsNumbered :
    (e : Engine) (reg : Registry) (s new : State) (id source : String) (dp : DocParams) (d : Doc)
    → PutEffect e reg s id source dp d new
    → pos_part s.index.seq_no < max_int64
    → IsNumbered s.index.docs s.index.seq_no
    → IsNumbered new.index.docs new.index.seq_no
PutEffect-IsNumbered e reg s new id source dp d f room h = record {
  bounded = λ j c l.
      ground (
        arith,
        f.docs_after j,
        f.next_seq_no,
        f.doc_seq_no,
        inc64-lt s.index.seq_no,
        h.bounded j c,
      );
  distinct = λ i j c k l m same. ground (
    arith,
    f.docs_after i,
    f.docs_after j,
    f.next_seq_no,
    f.doc_seq_no,
    inc64-lt s.index.seq_no,
    h.bounded i c,
    h.bounded j k,
    h.distinct i j c k,
    eq_iff id i,
    eq_iff id j,
  );
}

DeleteEffect-IsNumbered :
    (reg : Registry) (s new : State) (id : String) (out : DeleteOutcome)
    → DeleteEffect reg s id out new
    → pos_part s.index.seq_no < max_int64
    → IsNumbered s.index.docs s.index.seq_no
    → IsNumbered new.index.docs new.index.seq_no
DeleteEffect-IsNumbered reg s new id out f room h = record {
  bounded = λ j c l.
      ground (arith, f.docs_after j, f.next_seq_no, inc64-lt s.index.seq_no, h.bounded j c);
  distinct = λ i j c k l m same. ground (arith, f.docs_after i, f.docs_after j, h.distinct i j c k);
}

Wrote-IsNumbered :
    (fuel : ℕ) (e : Engine) (reg : Registry) (s new : State)
    → Wrote fuel e reg s new
    → IsNumbered s.index.docs s.index.seq_no
    → IsNumbered new.index.docs new.index.seq_no
Wrote-IsNumbered fuel e reg s new (put id source dp auto_id created d room done) =
    PutEffect-IsNumbered e reg s new id source dp d
      (put_doc-PutEffect fuel e reg s new id source dp auto_id created d done) room
Wrote-IsNumbered fuel e reg s new (deleted id dp routed out room window reaches done) =
    DeleteEffect-IsNumbered reg s new id out
      (delete_doc-DeleteEffect fuel e reg s new id dp routed out reaches done window) room

-- Along any run of successful puts and deletes, no stored document has a sequence number above
-- that of the index, and no two documents have the same one, if this holds at first. Each write
-- finds the sequence number below the largest, and each delete a window that is not negative and
-- a document its routing reaches.
pub Writes-IsNumbered :
    (fuel : ℕ) (e : Engine) (reg : Registry) (s t : State)
    → Writes fuel e reg s t
    → IsNumbered s.index.docs s.index.seq_no
    → IsNumbered t.index.docs t.index.seq_no
Writes-IsNumbered fuel e reg s _ no_write h = h
Writes-IsNumbered fuel e reg s u (then_write {t = t} ws w) h =
    Wrote-IsNumbered fuel e reg t u w (Writes-IsNumbered fuel e reg s t ws h)
