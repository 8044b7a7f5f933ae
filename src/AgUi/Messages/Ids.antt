-- ===== src/AgUi/Messages/Ids.antt =====
-- The ids of the messages, under `upsert` of ui/ag-ui/core.ts.
use chanx_kit.AgUi.Messages.{Message, id_of, upsert}
use chanx_kit.AgUi.Messages.Assembly.{IsNamed}
use chanx_kit.Prelude.{
  ==_iff, Distinct, List, Option, String, [], arith, has_key, refl, ◌==◌, ◌||◌, ◌∷◌, ◌≡◌,
}

-- No two messages have one id.
abbrev pub IsThread : List Message → Type 0
IsThread = Distinct id_of

has_key-upsert :
    (id j : String) (f : Option Message → Message) (ms : List Message)
    → IsNamed id f
    → has_key id_of j (upsert id f ms) ≡ (has_key id_of j ms || id == j)
unfolding upsert
has_key-upsert id j f [] k = rw (k.0) (ground arith)
has_key-upsert id j f (m ∷ ms) k =
    let s = k.1 m in
    ground (arith, has_key-upsert id j f ms k, ==_iff m.id id, ==_iff m.id j, ==_iff id j)

pub upsert-IsThread :
    (id : String) (f : Option Message → Message) (ms : List Message)
    → IsNamed id f
    → IsThread ms
    → IsThread (upsert id f ms)
unfolding upsert
upsert-IsThread id f [] k d = (refl, tt)
upsert-IsThread id f (m ∷ ms) k d =
    let s = k.1 m in
    ground (
      arith,
      upsert-IsThread id f ms k d.1,
      has_key-upsert id m.id f ms k,
      ==_iff m.id id,
      ==_iff id m.id,
    )
