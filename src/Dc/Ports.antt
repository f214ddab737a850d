-- ===== src/Dc/Ports.antt =====
-- The ports of a slave: time stamps, the active port before one, and the ports that are still open.
use ether_cat_master.Prelude.{ℕ, ◌-◌, ◌/◌, ◌%◌, ◌^◌, ◌==◌, Bool, if◌then◌else◌}
use ether_cat_master.Prelude.Int.{ℤ, pos}
use ether_cat_master.Memory.{Array}
use ether_cat_master.Dc.{Slave, modify}

-- `ports & (1 << port)`
unfoldable pub has_port : ℕ → ℕ → Bool
has_port ports port = ports / 2 ^ port % 2 == 1

-- `ports & ~(1 << port)`
unfoldable pub without_port : ℕ → ℕ → ℕ
unfolding has_port
without_port ports port = if has_port ports port then ports - 2 ^ port else ports

unfoldable pub porttime : Slave → ℕ → ℤ
porttime s port =
    if port == 0
    then s.dc_rt_a
    else if port == 1
    then s.dc_rt_b
    else if port == 2
    then s.dc_rt_c
    else if port == 3
    then s.dc_rt_d
    else pos 0

-- The first active one of three ports, or a fourth.
abbrev first_active : ℕ → ℕ → ℕ → ℕ → ℕ → ℕ
first_active aport a b c port =
    if has_port aport a
    then a
    else if has_port aport b
    then b
    else if has_port aport c
    then c
    else port

unfoldable pub prevport : ℕ → ℕ → ℕ
unfolding has_port
prevport aport port =
    if port == 0
    then first_active aport 2 1 3 port
    else if port == 1
    then first_active aport 3 0 2 port
    else if port == 2
    then first_active aport 1 3 0 port
    else if port == 3
    then first_active aport 0 2 1 port
    else port

-- The port that is taken, and the open ports that are left.
unfoldable pub take_port : ℕ → ℕ × ℕ
unfolding has_port without_port
take_port b =
    if has_port b 3
    then (3, without_port b 3)
    else if has_port b 1
    then (1, without_port b 1)
    else if has_port b 2
    then (2, without_port b 2)
    else if has_port b 0
    then (0, without_port b 0)
    else (0, b)

unfoldable pub parentport : Array Slave → ℕ → Array Slave × ℕ
unfolding modify take_port
parentport slaves parent =
    let (port, b) = take_port (slaves parent).consumedports in
    (modify slaves parent (λ s. record s { consumedports = b }), port)
