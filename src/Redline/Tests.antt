-- ===== src/Redline/Tests.antt =====
-- A run of the segments, and their theorem at a concrete proposal.
use coredot_editor.Prelude.{length, false, ◌≡◌, refl, codes, [], ◌∷◌, Text-discrete, ℕ_discrete}
use coredot_editor.Redline.{
  equal, deleted, inserted, SegmentType-discrete, tokenize, add_unit, prefix_length, suffix_goes_on,
  suffix_length, push_segment, segments_of, create_redline_segments,
}
use coredot_editor.Redline.Sides.{read_side, in_original, in_replacement}
use coredot_editor.Redline.Stops.{suffix_length_ends}
use coredot_editor.Redline.RoundTrip.{create_redline_segments-sides}

segments_run :
    create_redline_segments (codes "a big cat") (codes "a red cat")
    ≡ record { kind = equal; text = codes "a " }
      ∷ record { kind = inserted; text = codes "red" }
      ∷ record { kind = deleted; text = codes "big" }
      ∷ record { kind = equal; text = codes " cat" }
      ∷ []
unfolding create_redline_segments segments_of tokenize add_unit prefix_length suffix_length
    suffix_goes_on push_segment SegmentType-discrete Text-discrete ℕ_discrete
segments_run = refl

create_redline_segments-sides_example :
    (read_side in_original (create_redline_segments (codes "a big cat") (codes "a red cat"))
      ≡ codes "a big cat")
    × (read_side in_replacement (create_redline_segments (codes "a big cat") (codes "a red cat"))
        ≡ codes "a red cat")
create_redline_segments-sides_example =
    create_redline_segments-sides (codes "a big cat") (codes "a red cat")

suffix_length_ends_example :
    suffix_goes_on (tokenize (codes "a b")) (tokenize (codes "c b")) 0 (
      suffix_length
        (length (tokenize (codes "a b")))
        (tokenize (codes "a b"))
        (tokenize (codes "c b"))
        0
        0)
    ≡ false
suffix_length_ends_example = suffix_length_ends (tokenize (codes "a b")) (tokenize (codes "c b")) 0
