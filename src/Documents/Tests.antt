-- ===== src/Documents/Tests.antt =====
-- A document with two versions, the first of them published, the second ready to be.
use adbcops.Common.{
  ◌≡◌, ◌↔◌, refl, sym, subst, ◌==◌, String, Bool, true, false, Option, none, some, List, [], ◌∷◌,
  arith, if◌then◌else◌,
}
use adbcops.Common.Members.{mem}
use adbcops.Rca.Store.{find, next_id}
use adbcops.Documents.Publication.{
  Version, Document, State, Actor, VersionStatus, DocumentStatus, is_published,
}
use adbcops.Documents.Gate.{
  Sources, Request, uploads, publishes, deprecates, publish_version, serve_all,
}
use adbcops.Documents.Lookups.{some_same, none-some}
use adbcops.Documents.Published.{IsPublished}
use adbcops.Documents.Serving.{serve_all-IsPublished}
use adbcops.Documents.Released.{IsReleased, publish_version-IsReleased}
use adbcops.Documents.Diff.{Block, value_at, diff_blocks, diff_blocks_iff}

abbrev guide : Document
guide = record {
  id = 1;
  version = "";
  status = DocumentStatus.draft;
  created_by = some 5;
  current_published_version_id = none;
}

abbrev first_version : Version
first_version = record {
  id = 1;
  document_id = 1;
  version = "v1";
  revision_no = 1;
  status = VersionStatus.reviewing;
  parse_quality = some (record { parse_success = true; block_count = 12 });
}

abbrev empty : State
empty = record { documents = guide ∷ []; versions = first_version ∷ []; publications = [] }

abbrev sources : Sources
sources = record {
  quality = λ id. some (record { gate_status = "pass"; review_status = "published" });
  embedding = λ id. some (record { status = "ready"; chunk_count = 4; embedded_count = 4 });
  smoke = λ id. some (record { status = "completed"; passed = true });
}

abbrev admin : Option Actor
admin = some (record { id = 9; admin = true })

-- The one row of a table is not one with a property that it does not have.
not_the_row :
    {A : Type 0} (b : Bool) (row a : A)
    → (if b then some row else none) ≡ some a
    → (P : A → Type 0) → P a
    → ¬ (P row)
    → ⊥
not_the_row true row a e P p n = n (subst P (sym (some_same (some row) row a refl e)) p)
not_the_row false row a e P p n = none-some a e

empty-IsPublished : IsPublished empty
unfolding find next_id
empty-IsPublished = record {
  below = (omega arith, tt);
  named = λ x k d f e. absurd (
      not_the_row (1 == x) guide d f (λ (r : Document). r.current_published_version_id ≡ some k) e
        (none-some k));
  only = λ k v f p. absurd (
      not_the_row (1 == k) first_version v f (λ (r : Version). is_published r.status ≡ true) p
        false_true);
}
  where
    false_true : false ≡ true → ⊥
    false_true q = cc

abbrev requests : List Request
requests =
    publishes sources admin 1 ∷ uploads 1 "v2" ∷ publishes sources admin 2 ∷ deprecates admin 1 ∷ []

serve_all-IsPublished_example : IsPublished (serve_all requests empty)
serve_all-IsPublished_example = serve_all-IsPublished requests empty empty-IsPublished

publish_version-IsReleased_example :
    IsReleased sources admin 1 empty (publish_version sources admin 1 empty).1
unfolding publish_version
publish_version-IsReleased_example = publish_version-IsReleased sources admin 1 empty refl

abbrev old_blocks : List Block
old_blocks =
    record { block_key = "intro"; content_hash = some "1"; text_content = "" }
    ∷ record { block_key = "steps"; content_hash = none; text_content = "restart" }
    ∷ []

abbrev new_blocks : List Block
new_blocks =
    record { block_key = "intro"; content_hash = some "2"; text_content = "" }
    ∷ record { block_key = "rollback"; content_hash = none; text_content = "undo" }
    ∷ []

diffed :
    diff_blocks old_blocks new_blocks
    ≡ record { added = "rollback" ∷ []; removed = "steps" ∷ []; changed = "intro" ∷ [] }
unfolding diff_blocks mem
diffed = refl

diff_blocks_iff_example :
    ((diff_blocks old_blocks new_blocks).added ≡ [])
      × ((diff_blocks old_blocks new_blocks).removed ≡ [])
      × ((diff_blocks old_blocks new_blocks).changed ≡ [])
    ↔ ((key : String) → value_at key old_blocks ≡ value_at key new_blocks)
diff_blocks_iff_example = diff_blocks_iff old_blocks new_blocks
