-- ===== src/Network/Gate/Refused.antt =====
-- The host that the prerequisite callback of ext/curb_easy.c lets a request through to.
use curb.Easy.{Easy}
