-- ===== src/Passthrough/ChordFile/Agreement.antt =====
-- Both daemons read the same chord from the file.
use meta_dualsense.Mapper.Float.{Float}
use meta_dualsense.Chord
