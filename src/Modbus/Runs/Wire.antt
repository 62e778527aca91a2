-- ===== src/Modbus/Runs/Wire.antt =====
-- Frames, packed values and parsers on small inputs.
