-- ===== src/Network/Ipv4.antt =====
-- curb_ipv4_is_unsafe_destination of ext/curb_easy.c, on the four bytes of an address.
pub mod Blocks
use curb.Base.{bit_and, Bool, true, false, ◌&&◌, ◌||◌, leb, Bytes, ◌==◌, if◌then◌else◌}
use curb.Network.Prefix.{byte}

unfoldable pub ipv4_is_unsafe_destination : Bytes → Bool
ipv4_is_unsafe_destination ip =
    if byte ip 0 == 0
    then true
    else if byte ip 0 == 10
    then true
    else if byte ip 0 == 100 && bit_and (byte ip 1) 0xc0 == 0x40
    then true
    else if byte ip 0 == 100 && (byte ip 1 == 100 && (byte ip 2 == 100 && byte ip 3 == 200))
    then true
    else if byte ip 0 == 127
    then true
    else if byte ip 0 == 169 && byte ip 1 == 254
    then true
    else if byte ip 0 == 172 && (leb 16 (byte ip 1) && leb (byte ip 1) 31)
    then true
    else if byte ip 0 == 192 && byte ip 1 == 168
    then true
    else if byte ip 0 == 192 && (byte ip 1 == 0 && byte ip 2 == 0)
    then true
    else if byte ip 0 == 192 && (byte ip 1 == 0 && byte ip 2 == 2)
    then true
    else if byte ip 0 == 198 && (byte ip 1 == 18 || byte ip 1 == 19)
    then true
    else if byte ip 0 == 198 && (byte ip 1 == 51 && byte ip 2 == 100)
    then true
    else if byte ip 0 == 203 && (byte ip 1 == 0 && byte ip 2 == 113)
    then true
    else if leb 224 (byte ip 0)
    then true
    else false
