-- ===== src/Format/Tests.antt =====
-- Code: frontend/src/utils/format.ts.
-- The formatting functions at concrete inputs.
use vps_dashboard.Common.{◌≡◌, refl, arith, codes, decimal}
use vps_dashboard.Format.{
  format_bytes, format_bytes_per_sec, status_color, short_name, unit_index, rounded, fixed,
}
use vps_dashboard.Format.Bytes.{Shows, format_bytes-Shows}

plain : format_bytes 512 1 ≡ codes "512 B"
unfolding format_bytes unit_index rounded fixed decimal
plain = refl

kilobytes : format_bytes_per_sec 1536 ≡ codes "1.5 KB/s"
unfolding format_bytes_per_sec format_bytes unit_index rounded fixed decimal
kilobytes = refl

two_digits : format_bytes 1073741824 2 ≡ codes "1.00 GB"
unfolding format_bytes unit_index rounded fixed decimal
two_digits = refl

restarting : status_color (codes "Restarting") ≡ codes "var(--color-warn)"
unfolding status_color
restarting = refl

ellipsis : short_name (codes "traefik_public") 8 ≡ codes "traefik…"
unfolding short_name
ellipsis = refl

format_bytes-Shows_example : Shows 1536 1 (format_bytes 1536 1)
format_bytes-Shows_example = format_bytes-Shows 1536 1 (omega arith)
