-- ===== src/Tests/Texts.antt =====
-- Names and numbers.
use statsd_c.Base.{◌↔◌, ◌≡◌, ◌≤◌, refl, Bytes, All, arith, codes, length}
use statsd_c.Exec.{ok}
use statsd_c.Strings.{sanitize_key, sanitize_value}
use statsd_c.Strings.Sanitize.{IsPlain, sanitize_key-All}
use statsd_c.Strings.Decimal.{pos, negsuc, atol, print_ld, print_nat, digits_onto, ltoa, atol-ltoa}

sanitized : sanitize_key (codes "a.b/c d\\e:1") ≡ codes "a_b-cd-e1"
unfolding sanitize_key
sanitized = refl

value_kept : sanitize_value (codes "+-1.5e3") ≡ codes "-1.53"
unfolding sanitize_value
value_kept = refl

printed : print_ld (negsuc 1203) ≡ codes "-1204"
unfolding print_ld print_nat digits_onto
printed = refl

sanitize_key-All_example :
    All IsPlain (sanitize_key (codes "a.b"))
    × (length (sanitize_key (codes "a.b")) ≤ 3)
    × ((sanitize_key (codes "a.b") ≡ codes "a.b") ↔ All IsPlain (codes "a.b"))
sanitize_key-All_example = sanitize_key-All (codes "a.b")

atol-ltoa_example : (t : Bytes) × (ltoa (pos 1700000000) ≡ ok t) × (atol t ≡ pos 1700000000)
atol-ltoa_example = atol-ltoa 1700000000 (omega arith)
