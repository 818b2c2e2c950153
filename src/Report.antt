-- ===== src/Report.antt =====
-- The layout of the DualSense input report and the action numbers
-- (recipes-apps/kbm-mapper-ff/files/report.h).
use meta_dualsense.Prelude.{ℕ}

abbrev pub ds_report_len : ℕ
ds_report_len = 64

abbrev pub ds_report_id : ℕ
ds_report_id = 1

abbrev pub ds_off_lx : ℕ
ds_off_lx = 1

abbrev pub ds_off_ly : ℕ
ds_off_ly = 2

abbrev pub ds_off_rx : ℕ
ds_off_rx = 3

abbrev pub ds_off_ry : ℕ
ds_off_ry = 4

abbrev pub ds_off_l2 : ℕ
ds_off_l2 = 5

abbrev pub ds_off_r2 : ℕ
ds_off_r2 = 6

abbrev pub ds_off_seq : ℕ
ds_off_seq = 7

abbrev pub ds_off_btn0 : ℕ
ds_off_btn0 = 8

abbrev pub ds_off_btn1 : ℕ
ds_off_btn1 = 9

abbrev pub ds_off_btn2 : ℕ
ds_off_btn2 = 10

abbrev pub ds_off_ts : ℕ
ds_off_ts = 11

abbrev pub ds_stick_center : ℕ
ds_stick_center = 128

abbrev pub ds_dpad_n : ℕ
ds_dpad_n = 0

abbrev pub ds_dpad_ne : ℕ
ds_dpad_ne = 1

abbrev pub ds_dpad_e : ℕ
ds_dpad_e = 2

abbrev pub ds_dpad_se : ℕ
ds_dpad_se = 3

abbrev pub ds_dpad_s : ℕ
ds_dpad_s = 4

abbrev pub ds_dpad_sw : ℕ
ds_dpad_sw = 5

abbrev pub ds_dpad_w : ℕ
ds_dpad_w = 6

abbrev pub ds_dpad_nw : ℕ
ds_dpad_nw = 7

abbrev pub ds_dpad_none : ℕ
ds_dpad_none = 8

abbrev pub ds_act_none : ℕ
ds_act_none = 0

abbrev pub ds_act_lstick_up : ℕ
ds_act_lstick_up = 1

abbrev pub ds_act_lstick_down : ℕ
ds_act_lstick_down = 2

abbrev pub ds_act_lstick_left : ℕ
ds_act_lstick_left = 3

abbrev pub ds_act_lstick_right : ℕ
ds_act_lstick_right = 4

abbrev pub ds_act_rstick_up : ℕ
ds_act_rstick_up = 5

abbrev pub ds_act_rstick_down : ℕ
ds_act_rstick_down = 6

abbrev pub ds_act_rstick_left : ℕ
ds_act_rstick_left = 7

abbrev pub ds_act_rstick_right : ℕ
ds_act_rstick_right = 8

abbrev pub ds_act_dpad_up : ℕ
ds_act_dpad_up = 9

abbrev pub ds_act_dpad_down : ℕ
ds_act_dpad_down = 10

abbrev pub ds_act_dpad_left : ℕ
ds_act_dpad_left = 11

abbrev pub ds_act_dpad_right : ℕ
ds_act_dpad_right = 12

abbrev pub ds_act_cross : ℕ
ds_act_cross = 13

abbrev pub ds_act_circle : ℕ
ds_act_circle = 14

abbrev pub ds_act_square : ℕ
ds_act_square = 15

abbrev pub ds_act_triangle : ℕ
ds_act_triangle = 16

abbrev pub ds_act_l1 : ℕ
ds_act_l1 = 17

abbrev pub ds_act_r1 : ℕ
ds_act_r1 = 18

abbrev pub ds_act_l2 : ℕ
ds_act_l2 = 19

abbrev pub ds_act_r2 : ℕ
ds_act_r2 = 20

abbrev pub ds_act_l3 : ℕ
ds_act_l3 = 21

abbrev pub ds_act_r3 : ℕ
ds_act_r3 = 22

abbrev pub ds_act_create : ℕ
ds_act_create = 23

abbrev pub ds_act_options : ℕ
ds_act_options = 24

abbrev pub ds_act_ps : ℕ
ds_act_ps = 25

abbrev pub ds_act_touchpad : ℕ
ds_act_touchpad = 26

abbrev pub ds_act_mute : ℕ
ds_act_mute = 27

abbrev pub ds_act_max : ℕ
ds_act_max = 28
